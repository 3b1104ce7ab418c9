-- ===== src/Samples/Words.antt =====
-- Texts that are read back as they were printed: a letter, and then one mark for each second.
use Prim.Native.String.{String}
use homelab_autoscaler.Prelude.{
  ℕ, zero, suc, ◌*◌, ◌-◌, ◌/◌, ◌%◌, ◌≡◌, refl, ◌≢◌, Option, none, some, arith, ap,
}
use homelab_autoscaler.Prelude.Int.{ℤ, pos, negsuc}
use homelab_autoscaler.Api.Text.{Texts, TextLaws}

abbrev pub marks : ℕ → String
marks zero = ""
marks (suc n) = String.◌∷◌ "x" (marks n)

abbrev pub size : String → ℕ
size String.[] = 0
size (String.◌∷◌ _ s) = suc (size s)

size-marks : (n : ℕ) → size (marks n) ≡ n
size-marks zero = refl
size-marks (suc n) = ap suc (size-marks n)

abbrev pub marked : ℕ → String
marked n = String.◌∷◌ "s" (marks n)

abbrev pub after_mark : String → Option ℕ
after_mark String.[] = none
after_mark (String.◌∷◌ _ s) = some (size s)

abbrev pub print_seconds : ℤ → String
print_seconds (pos d) = marked (d / 1_000_000_000)
print_seconds (negsuc d) = marked 0

abbrev pub words : Texts
words = record {
  format_time = λ n. marked (n / 1_000_000_000);
  parse_time = λ s. elim (after_mark s) [ none ↦ none | some n ↦ some (n * 1_000_000_000) ];
  format_seconds = print_seconds;
  parse_seconds = λ s. elim (after_mark s) [ none ↦ none | some n ↦ some (pos n) ];
  decimal = marked;
}

marked_not_empty : (n : ℕ) → marked n ≢ ""
marked_not_empty n p = cc

printed_not_empty : (d : ℤ) → print_seconds d ≢ ""
printed_not_empty (pos d) = marked_not_empty _
printed_not_empty (negsuc d) = marked_not_empty 0

back : (n : ℕ) → n * 1_000_000_000 / 1_000_000_000 ≡ n
back n = ground arith

whole : (n : ℕ) → n / 1_000_000_000 * 1_000_000_000 ≡ n - n % 1_000_000_000
whole n = ground arith

pub words_laws : TextLaws words
words_laws = record {
  time_round_trip = λ n. rw (size-marks (n / 1_000_000_000)) (ap some (whole n));
  time_not_empty = λ n. marked_not_empty _;
  seconds_round_trip =
      λ n h. rw (size-marks (n * 1_000_000_000 / 1_000_000_000)) (ap (λ k. some (pos k)) (back n));
  seconds_not_empty = printed_not_empty;
}
