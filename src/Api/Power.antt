-- ===== src/Api/Power.antt =====
-- The texts of `PowerState` (`UnmarshalJSON`, `MarshalJSON` and their YAML twins of
-- api/infra/v1alpha1/node_types.go) between the decoders of the two formats and the program.
use homelab_autoscaler.Prelude.{
  String, ◌≡◌, refl, ◌||◌, str_eq, if◌then◌else◌, Bool-cases, inl, inr, ap, ◌∙◌, subst,
}
use homelab_autoscaler.Action.{Result, ok, err}
use homelab_autoscaler.Api.{PowerState, on, off}

-- The `switch` of `UnmarshalJSON` and of `UnmarshalYAML`.
unfoldable pub power_of_text : String → PowerState
power_of_text s =
    if str_eq s "on" || str_eq s "true"
    then on
    else if str_eq s "off" || str_eq s "false"
    then off
    else PowerState.unnamed s

-- `string(p)`
unfoldable pub text_of_power : PowerState → String
text_of_power on = "on"
text_of_power off = "off"
text_of_power (PowerState.unnamed s) = s

-- What follows the decoding of the text: an error is passed on.
abbrev read_power : Result String → Result PowerState
read_power (ok s) = ok (power_of_text s)
read_power (err x) = err x

-- `json.Unmarshal` and `json.Marshal` of a text, as `decode` and `encode`, over bytes of type D.
module _ {D : Type 0} (decode : D → Result String) (encode : String → D) where
  abbrev pub unmarshal_json : D → Result PowerState
  unmarshal_json bytes = read_power (decode bytes)

  abbrev pub marshal_json : PowerState → D
  marshal_json p = encode (text_of_power p)

-- `value.Decode` of a YAML node into a text; the encoder of the text is the library's.
module _ {N : Type 0} (decode : N → Result String) where
  abbrev pub unmarshal_yaml : N → Result PowerState
  unmarshal_yaml value = read_power (decode value)

abbrev pub marshal_yaml : PowerState → String
marshal_yaml = text_of_power

-- Writing a power state that was read and reading it again changes nothing, so a Boolean that YAML
-- made of `on` or `off` settles as the power state it stands for.
pub power_settles : (s : String) → power_of_text (text_of_power (power_of_text s)) ≡ power_of_text s
unfolding power_of_text text_of_power
power_settles s = elim (Bool-cases (str_eq s "on" || str_eq s "true")) [
  | inl h ↦ rw h refl
  | inr h ↦ elim (Bool-cases (str_eq s "off" || str_eq s "false")) [
    | inl k ↦ rw h (rw k refl)
    | inr k ↦ rw h (rw k (rw h (rw k refl)))
  ]
]

settled :
    (r : Result String) (p : PowerState) → read_power r ≡ ok p → power_of_text (text_of_power p) ≡ p
settled (ok s) p h =
    let same : power_of_text s ≡ p = cc in
    subst (λ q. power_of_text (text_of_power q) ≡ q) same (power_settles s)
settled (err x) p h = absurd (cc)

-- With codecs that read back the texts that they wrote, a power state that was read, from JSON or from
-- YAML, is read back as it is after it was written, in either format; and the texts `true` and `false`, which
-- a decoder makes of the Booleans that `on` and `off` stand for, are read as `on` and `off`.
pub power_round_trip :
    {D N : Type 0} (decode : D → Result String) (encode : String → D) (decode' : N → Result String)
    (encode' : String → N) (bytes : D) (value : N) (p q : PowerState)
    → ((s : String) → decode (encode s) ≡ ok s)
    → ((s : String) → decode' (encode' s) ≡ ok s)
    → unmarshal_json decode encode bytes ≡ ok p
    → unmarshal_yaml decode' value ≡ ok q
    → (unmarshal_json decode encode (marshal_json decode encode p) ≡ ok p)
      × (unmarshal_yaml decode' (encode' (marshal_yaml p)) ≡ ok p)
      × (unmarshal_json decode encode (marshal_json decode encode q) ≡ ok q)
      × (unmarshal_yaml decode' (encode' (marshal_yaml q)) ≡ ok q)
      × (unmarshal_json decode encode (encode "true") ≡ ok on)
      × (unmarshal_json decode encode (encode "false") ≡ ok off)
      × (unmarshal_yaml decode' (encode' "true") ≡ ok on)
      × (unmarshal_yaml decode' (encode' "false") ≡ ok off)
unfolding power_of_text
power_round_trip decode encode decode' encode' bytes value p q law law' got got' =
    let at_p = ap (λ (x : PowerState). ok x) (settled (decode bytes) p got) in
    let at_q = ap (λ (x : PowerState). ok x) (settled (decode' value) q got') in
    (
      ap read_power (law (text_of_power p)) ∙ at_p,
      ap read_power (law' (text_of_power p)) ∙ at_p,
      ap read_power (law (text_of_power q)) ∙ at_q,
      ap read_power (law' (text_of_power q)) ∙ at_q,
      ap read_power (law "true"),
      ap read_power (law "false"),
      ap read_power (law' "true"),
      ap read_power (law' "false"),
    )
