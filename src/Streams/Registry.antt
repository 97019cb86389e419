-- ===== src/Streams/Registry.antt =====
-- SchemaRegistry of internal/queue/streams/registry.go. The schema compiler and the JSON decoder are
-- parameters; a schema `S` says whether a document `D` is valid.
use newser.Prelude.{
  ◌≡◌, refl, ◌∙◌, ap, Bool, true, false, ◌&&◌, ◌||◌, not, String, Option, none, some, List, [], ◌∷◌,
  str_eq, eq_iff, if◌then◌else◌, is_empty, arith, Bool-cases, inl, inr,
}
use newser.Prelude.Dict.{lookup, insert, lookup-insert}

-- `schemas`: by event type, then by version.
abbrev pub Schemas : Type 0 → Type 0
Schemas S = List (String × List (String × S))

pub data RegistryError : Type 0 where
  event_type_missing version_missing schema_empty schema_invalid : RegistryError
  no_event_type : String → RegistryError
  no_version : String → String → RegistryError
  payload_empty payload_unreadable payload_invalid : RegistryError

pub record SchemaTools (S D : Type 0) : Type 0 where
  pub compile : String → Option S
  pub decode : String → Option D
  pub valid : S → D → Bool

abbrev versions_of : {S : Type 0} → Option (List (String × S)) → List (String × S)
versions_of none = []
versions_of (some versions) = versions

abbrev pub is_none : {A : Type 0} → Option A → Bool
is_none none = true
is_none (some a) = false

-- A call of Register: the event type, the version and the bytes of the schema.
abbrev pub Call : Type 0
Call = String × String × String

module _ {S D : Type 0} (tools : SchemaTools S D) where
  -- `r.schemas[eventType][version] = compiled`, with a new inner map where there is none.
  unfoldable pub store_schema : String → String → S → Schemas S → Schemas S
  store_schema event version s r = insert event (insert version s (versions_of (lookup event r))) r

  stored : String → String → Schemas S → Option S → Schemas S × Option RegistryError
  stored event version r none = (r, some schema_invalid)
  stored event version r (some s) = (store_schema event version s r, none)

  -- `Register`: the registry as it is left, and the error.
  unfoldable pub register : String → String → String → Schemas S → Schemas S × Option RegistryError
  unfolding stored
  register event version bytes r =
      if is_empty event
      then (r, some event_type_missing)
      else if is_empty version
      then (r, some version_missing)
      else if is_empty bytes
      then (r, some schema_empty)
      else stored event version r (tools.compile bytes)

  abbrev document_error : S → Option D → Option RegistryError
  document_error s none = some payload_unreadable
  document_error s (some doc) = if tools.valid s doc then none else some payload_invalid

  payload_error : String → S → Option RegistryError
  payload_error payload s =
      if is_empty payload then some payload_empty else document_error s (tools.decode payload)

  version_error : String → String → String → Option S → Option RegistryError
  version_error event version payload none = some (no_version event version)
  version_error event version payload (some s) = payload_error payload s

  event_error : String → String → String → Option (List (String × S)) → Option RegistryError
  event_error event version payload none = some (no_event_type event)
  event_error event version payload (some versions) =
      version_error event version payload (lookup version versions)

  -- `Validate`.
  unfoldable pub validate : String → String → String → Schemas S → Option RegistryError
  unfolding event_error version_error payload_error
  validate event version payload r =
      if is_empty event
      then some event_type_missing
      else if is_empty version
      then some version_missing
      else event_error event version payload (lookup event r)

  unfoldable pub register_all : List Call → Schemas S → Schemas S
  unfolding register
  register_all [] r = r
  register_all ((event, version, bytes) ∷ calls) r =
      register_all calls (register event version bytes r).0

  -- The registry as a function from event types and versions.
  abbrev pub View : Type 0
  View = String → String → Option S

  abbrev pub view : Schemas S → View
  view r event version = lookup version (versions_of (lookup event r))

  -- Whether a call names an event type, a version and a schema.
  abbrev pub named : String → String → String → Bool
  named event version bytes = not (is_empty event || is_empty version || is_empty bytes)

  -- The same calls on the function: one that names all and compiles replaces the one entry.
  abbrev pub update : String → String → Option S → View → View
  update event version none f = f
  update event version (some s) f =
      λ e v. if str_eq event e && str_eq version v then some s else f e v

  pub replay : List Call → View → View
  replay [] f = f
  replay ((event, version, bytes) ∷ calls) f =
      replay calls
        (if named event version bytes then update event version (tools.compile bytes) f else f)

  view-store_schema :
      (event version e v : String) (s : S) (r : Schemas S)
      → view (store_schema event version s r) e v ≡ update event version (some s) (view r) e v
  unfolding store_schema
  view-store_schema event version e v s r = ground (
    arith,
    lookup-insert event e (insert version s (versions_of (lookup event r))) r,
    lookup-insert version v s (versions_of (lookup event r)),
    eq_iff event e,
  )

  view-stored :
      (event version e v : String) (compiled : Option S) (r : Schemas S)
      → view (stored event version r compiled).0 e v ≡ update event version compiled (view r) e v
  unfolding stored
  view-stored event version e v none r = refl
  view-stored event version e v (some s) r = view-store_schema event version e v s r

  view-register :
      (event version bytes e v : String) (r : Schemas S)
      → view (register event version bytes r).0 e v
        ≡ (if named event version bytes
              then update event version (tools.compile bytes) (view r)
              else view r)
            e v
  unfolding register
  view-register event version bytes e v r = elim (Bool-cases (is_empty event)) [
    | inl a ↦ rw a refl
    | inr a ↦ elim (Bool-cases (is_empty version)) [
      | inl b ↦ rw (a, b) refl
      | inr b ↦ elim (Bool-cases (is_empty bytes)) [
        | inl c ↦ rw (a, b, c) refl
        | inr c ↦ rw (a, b, c) (view-stored event version e v (tools.compile bytes) r)
      ]
    ]
  ]

  view-register_all :
      (calls : List Call) (r : Schemas S) → view (register_all calls r) ≡ replay calls (view r)
  unfolding register_all replay
  view-register_all [] r = refl
  view-register_all ((event, version, bytes) ∷ calls) r =
      view-register_all calls (register event version bytes r).0
      ∙ ap (replay calls) (λ i e v. view-register event version bytes e v r i)

  -- Whether a payload fits the schema that there is.
  abbrev pub fits : Option D → S → Bool
  fits none s = false
  fits (some doc) s = tools.valid s doc

  abbrev pub accepts : String → Option S → Bool
  accepts payload none = false
  accepts payload (some s) = not (is_empty payload) && fits (tools.decode payload) s

  document_error-fits : (s : S) (doc : Option D) → is_none (document_error s doc) ≡ fits doc s
  document_error-fits s none = refl
  document_error-fits s (some doc) = ground arith

  payload_error-accepts :
      (payload : String) (s : S) → is_none (payload_error payload s) ≡ accepts payload (some s)
  unfolding payload_error
  payload_error-accepts payload s = elim (Bool-cases (is_empty payload)) [
    | inl e ↦ rw e refl
    | inr e ↦ rw e (document_error-fits s (tools.decode payload))
  ]

  version_error-accepts :
      (event version payload : String) (s : Option S)
      → is_none (version_error event version payload s) ≡ accepts payload s
  unfolding version_error
  version_error-accepts event version payload none = refl
  version_error-accepts event version payload (some s) = payload_error-accepts payload s

  event_error-accepts :
      (event version payload : String) (found : Option (List (String × S)))
      → is_none (event_error event version payload found)
        ≡ accepts payload (lookup version (versions_of found))
  unfolding event_error lookup
  event_error-accepts event version payload none = refl
  event_error-accepts event version payload (some versions) =
      version_error-accepts event version payload (lookup version versions)

  -- After any calls of Register on an empty registry, Validate accepts a payload exactly when its
  -- event type and version are given, the last call for this pair that names a schema which compiles
  -- has left one, and the payload is not empty, can be read, and is valid for that schema.
  pub validate-register_all :
      (calls : List Call) (event version payload : String)
      → is_none (validate event version payload (register_all calls [])) ≡ (
          not (is_empty event)
          && not (is_empty version)
          && accepts payload (replay calls (λ e v. none) event version))
  unfolding validate lookup
  validate-register_all calls event version payload = elim (Bool-cases (is_empty event)) [
    | inl a ↦ rw a refl
    | inr a ↦ elim (Bool-cases (is_empty version)) [
      | inl b ↦ rw (a, b) refl
      | inr b ↦
          rw (a, b)
            (event_error-accepts event version payload (lookup event (register_all calls []))
              ∙ ap (λ f. accepts payload (f event version)) (view-register_all calls []))
    ]
  ]
