-- ===== src/Streams/Envelopes.antt =====
-- Writing an envelope and reading it again.
use newser.Prelude.{
  ◌≡◌, refl, sym, ◌∙◌, ap, Bool, false, String, Option, none, some, is_empty, if◌then◌else◌,
  Bool-cases, inl, inr,
}
use newser.Prelude.Int.{pos, ltb_ℤ}
use newser.Store.{reply}
use newser.Streams.{
  Envelope, EnvelopeError, Codec, validate_basic, marshal, unmarshal_envelope, written, written_as,
  checked,
}

encoded : (o : Option String) (s : String) → written_as o ≡ reply s → o ≡ some s
encoded none s h = absurd (cc)
encoded (some t) s h = cc

-- What `json` reads back of an envelope that it has written: raw data are compacted, which leaves
-- something of data that are not empty, and a time may lose what JSON does not write of it, but
-- stays off the zero time.
pub record ReadsBack {T : Type 0} (codec : Codec T) (is_zero : T → Bool) (compact : String → String)
    (keep : T → T) : Type 0 where
  pub reads :
      (x : Envelope T) (s : String)
      → codec.encode x ≡ some s
      → codec.decode s
        ≡ some (record x { occurred_at = keep x.occurred_at; content = compact x.content })
  pub some_content :
      (x : Envelope T) (s : String)
      → codec.encode x ≡ some s
      → is_empty x.content ≡ false
      → is_empty (compact x.content) ≡ false
  pub some_time : (t : T) → is_zero (keep t) ≡ is_zero t

module _ {T : Type 0} (codec : Codec T) (is_zero : T → Bool) where
  -- An accepted envelope passes all five tests.
  passed :
      (now : T) (e : Envelope T)
      → (validate_basic is_zero now e).1 ≡ none
      → (is_empty e.event_id ≡ false)
        × (is_empty e.event_type ≡ false)
        × (is_empty e.payload_version ≡ false)
        × (ltb_ℤ e.attempt (pos 0) ≡ false)
        × (is_empty e.content ≡ false)
  unfolding validate_basic
  passed now e h = elim (Bool-cases (is_empty e.event_id)) [
    | inl a ↦ absurd (let no = rw a at h in cc)
    | inr a ↦ elim (Bool-cases (is_empty e.event_type)) [
      | inl b ↦ absurd (let no = rw (a, b) at h in cc)
      | inr b ↦ elim (Bool-cases (is_empty e.payload_version)) [
        | inl c ↦ absurd (let no = rw (a, b, c) at h in cc)
        | inr c ↦ elim (Bool-cases (ltb_ℤ e.attempt (pos 0))) [
          | inl d ↦ absurd (let no = rw (a, b, c, d) at h in cc)
          | inr d ↦ elim (Bool-cases (is_empty e.content)) [
            | inl f ↦ absurd (let no = rw (a, b, c, d, f) at h in cc)
            | inr f ↦ (a, b, c, d, f)
          ]
        ]
      ]
    ]
  ]

  time_of : T → Envelope T → T
  time_of now e = if is_zero e.occurred_at then now else e.occurred_at

  is_zero-time_of :
      (now : T) (e : Envelope T) → is_zero now ≡ false → is_zero (time_of now e) ≡ false
  unfolding time_of
  is_zero-time_of now e set = elim (Bool-cases (is_zero e.occurred_at)) [
    | inl unset ↦ rw unset set
    | inr there ↦ rw there there
  ]

  stamped :
      (now : T) (e : Envelope T)
      → (validate_basic is_zero now e).1 ≡ none
      → (validate_basic is_zero now e).0 ≡ record e { occurred_at = time_of now e }
  unfolding validate_basic time_of
  stamped now e h = let (a, b, c, d, f) = passed now e h in rw (a, b, c, d, f) refl

  validate_basic_again :
      (later : T) (e : Envelope T)
      → (is_empty e.event_id ≡ false)
        × (is_empty e.event_type ≡ false)
        × (is_empty e.payload_version ≡ false)
        × (ltb_ℤ e.attempt (pos 0) ≡ false)
        × (is_empty e.content ≡ false)
      → is_zero e.occurred_at ≡ false
      → validate_basic is_zero later e ≡ (e, none)
  unfolding validate_basic
  validate_basic_again later e (a, b, c, d, f) set = rw (a, b, c, d, f, set) refl

  written-reply :
      (got : Envelope T × Option EnvelopeError) (s : String)
      → written codec got ≡ reply s
      → (got.1 ≡ none) × (codec.encode got.0 ≡ some s)
  unfolding written
  written-reply (e, some x) s h = absurd (cc)
  written-reply (e, none) s h = (refl, encoded (codec.encode e) s h)

  -- An envelope that Marshal accepts is read by UnmarshalEnvelope, at any later time, as the same
  -- envelope, with the time of the marshalling if it had none, but for what JSON changes: its data
  -- are compacted, and its time is the one that a JSON time keeps. The clock is not at the zero time.
  pub unmarshal_envelope-marshal :
      (compact : String → String) (keep : T → T)
      → ReadsBack codec is_zero compact keep
      → (now later : T) (e : Envelope T) (s : String) → is_zero now ≡ false
      → marshal codec is_zero now e ≡ reply s
      → unmarshal_envelope codec is_zero later s
        ≡ reply (record e {
          occurred_at = keep (if is_zero e.occurred_at then now else e.occurred_at);
          content = compact e.content;
        })
  unfolding marshal unmarshal_envelope time_of
  unmarshal_envelope-marshal compact keep laws now later e s set h =
      let (fine, encoded_as) = written-reply (validate_basic is_zero now e) s h in
      let (a, b, c, d, f) = passed now e fine in
      let t = time_of now e in
      let made = ap (λ x. codec.encode x) (sym (stamped now e fine)) ∙ encoded_as in
      let back = record e { occurred_at = keep t; content = compact e.content } in
      rw (laws.reads (record e { occurred_at = t }) s made) (
        ap checked (
          validate_basic_again later back
            (a, b, c, d, laws.some_content (record e { occurred_at = t }) s made f)
            (laws.some_time t ∙ is_zero-time_of now e set)))
