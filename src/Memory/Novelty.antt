-- ===== src/Memory/Novelty.antt =====
-- What Delta answers: its counts, and which keys it reports as novel.
use newser.Prelude.{
  ℕ, suc, ◌+◌, ◌≤◌, ◌≡◌, ◌==◌, ==_iff, refl, ap, Bool, true, false, not, ◌||◌, String, Option, some,
  none, List, [], ◌∷◌, length, is_nil, count, length-append, is_empty, trim_space, arith,
  Bool-cases, inl, inr,
}
use newser.Store.{Reply, reply, fault}
use newser.Memory.{DeltaItem, DeltaRequest, DeltaResponse, Manager, Embed, MemoryError}
use newser.Memory.Texts.{key_of, delta_text}
use newser.Memory.Delta.{
  Sifted, sift_new, sift_item, sift, unsifted, known_keys, response, paired, keep, drop_similar,
  similar, on_similar, screen, finish_delta, screen_vectors, delta_semantic, delta_items, delta,
}
use newser.Memory.Account.{item_keys, first_keys, item_keys-append, gain, held_count-sift}

is_nil-eq : {A : Type 0} (xs : List A) → is_nil xs ≡ true → xs ≡ []
is_nil-eq [] h = refl
is_nil-eq (x ∷ xs) h = absurd (cc)

no_search : (semantic none_found : Bool) → semantic ≡ false → (not semantic || none_found) ≡ true
no_search false none_found h = refl
no_search true none_found h = absurd (cc)

module _ {F : Type 0} where
  abbrev pub handled : Sifted F → ℕ
  handled s = length s.novel + s.duplicates + length s.candidates

  handled-sift_new :
      (semantic : Bool) (item : DeltaItem F) (s : Sifted F)
      → handled (sift_new semantic item s) ≡ suc (handled s)
  unfolding sift_new
  handled-sift_new false item s = omega (arith, length-append s.novel (item ∷ []))
  handled-sift_new true item s = elim (Bool-cases (is_empty (delta_text item))) [
    | inl e ↦ rw e (omega (arith, length-append s.novel (item ∷ [])))
    | inr e ↦ rw e (omega (arith, length-append s.candidates ((item, delta_text item) ∷ [])))
  ]

  handled-sift_item :
      (known : List String) (semantic : Bool) (item : DeltaItem F) (s : Sifted F)
      → handled (sift_item known semantic item s) ≡ suc (handled s)
  unfolding sift_item
  handled-sift_item known semantic item s =
      let s' = record s { seen = key_of item ∷ s.seen } in
      ground (arith, handled-sift_new semantic item s', length-append s.novel (item ∷ []))

  handled-sift :
      (known : List String) (semantic : Bool) (items : List (DeltaItem F)) (s : Sifted F)
      → handled (sift known semantic items s) ≡ handled s + length items
  unfolding sift
  handled-sift known semantic [] s = omega arith
  handled-sift known semantic (item ∷ items) s = omega (
    arith,
    handled-sift known semantic items (sift_item known semantic item s),
    handled-sift_item known semantic item s,
  )

  -- Without the semantic search there are no candidates.
  sift-candidates :
      (known : List String) (items : List (DeltaItem F)) (s : Sifted F)
      → (sift known false items s).candidates ≡ s.candidates
  unfolding sift sift_item sift_new
  sift-candidates known [] s = refl
  sift-candidates known (item ∷ items) s =
      ground (arith, sift-candidates known items (sift_item known false item s))

  no_search-candidates :
      (known : List String) (semantic : Bool) (items : List (DeltaItem F))
      → (not semantic || is_nil (sift known semantic items unsifted).candidates) ≡ true
      → (sift known semantic items unsifted).candidates ≡ []
  no_search-candidates known false items h = sift-candidates known items unsifted
  no_search-candidates known true items h = is_nil-eq _ h

  first_keys-paired :
      {B : Type 0} (cs : List (DeltaItem F × String)) (vs : List B)
      → length vs ≡ length cs
      → first_keys (paired cs vs) ≡ first_keys cs
  first_keys-paired [] vs h = refl
  first_keys-paired (c ∷ cs) [] h = absurd (omega arith)
  first_keys-paired ((item, words) ∷ cs) (v ∷ vs) h =
      ap (λ ks. key_of item ∷ ks) (first_keys-paired cs vs (omega arith))

  length-first_keys :
      {B : Type 0} (cs : List (DeltaItem F × B)) → length (first_keys cs) ≡ length cs
  length-first_keys [] = refl
  length-first_keys ((item, b) ∷ cs) = ap (λ n. suc n) (length-first_keys cs)

  -- What an answer owes to the response and the candidates with which the second loop starts:
  -- every candidate is counted once, and a key is novel at most as often as it stands there.
  abbrev Accounted : String → List String → DeltaResponse F → DeltaResponse F → Type 0
  Accounted k ks from to =
      (length to.novel + to.duplicate_count ≡ length from.novel + from.duplicate_count + length ks)
      × (to.total ≡ from.total)
      × (count k (item_keys to.novel) ≤ count k (item_keys from.novel) + count k ks)

  Accounted-keep :
      (k : String) (ks : List String) (item : DeltaItem F) (from to : DeltaResponse F)
      → Accounted k ks (keep item from) to
      → Accounted k (key_of item ∷ ks) from to
  Accounted-keep k ks item from to h =
      ground (arith, length-append from.novel (item ∷ []), item_keys-append k from.novel item)

  on_similar-Accounted :
      {W E : Type 0} (k : String) (ks : List String)
      (rest : DeltaResponse F → W → W × Reply E (DeltaResponse F)) (item : DeltaItem F)
      (from to : DeltaResponse F) (got : W × Reply E Bool)
      → ((r : DeltaResponse F) (w : W) → (rest r w).1 ≡ reply to → Accounted k ks r to)
      → (on_similar rest item from got).1 ≡ reply to
      → Accounted k (key_of item ∷ ks) from to
  unfolding on_similar
  on_similar-Accounted k ks rest item from to (w, fault e) h eq = absurd (cc)
  on_similar-Accounted k ks rest item from to (w, reply true) h eq =
      ground (arith, h (drop_similar from) w)
  on_similar-Accounted k ks rest item from to (w, reply false) h eq =
      Accounted-keep k ks item from to (h (keep item from) w eq)

-- The keys that an answer may call novel: of each empty key all items; any other key once, and
-- only if the request has it and does not list it as known.
abbrev pub novel_count : {F : Type 0} → DeltaRequest F → String → ℕ
novel_count req k = gain (known_keys req.known_ids) [] (item_keys req.items) k

module _ {F V T W E : Type 0} (m : Manager F V T W E) (k : String) where
  screen-Accounted :
      (cs : List (DeltaItem F × List V)) (from to : DeltaResponse F) (w : W)
      → (screen m cs from w).1 ≡ reply to
      → Accounted k (first_keys cs) from to
  unfolding screen
  screen-Accounted [] from to w eq = ground arith
  screen-Accounted ((item, []) ∷ cs) from to w eq =
      Accounted-keep k (first_keys cs) item from to (screen-Accounted cs (keep item from) to w eq)
  screen-Accounted ((item, x ∷ vec) ∷ cs) from to w eq =
      on_similar-Accounted k (first_keys cs) (screen m cs) item from to
        (similar m from.topic_id (x ∷ vec) w) (λ r w'. screen-Accounted cs r to w') eq

  finish_delta-reply :
      (got : W × Reply (MemoryError E) (DeltaResponse F)) (to : DeltaResponse F)
      → (finish_delta m got).1 ≡ reply to
      → got.1 ≡ reply to
  unfolding finish_delta
  finish_delta-reply (w, fault e) to eq = eq
  finish_delta-reply (w, reply r) to eq = eq

  screen_vectors-Accounted :
      (cs : List (DeltaItem F × String)) (from to : DeltaResponse F)
      (got : W × Reply E (List (List V)))
      → (screen_vectors m cs from got).1 ≡ reply to
      → Accounted k (first_keys cs) from to
  unfolding screen_vectors
  screen_vectors-Accounted cs from to (w, fault e) eq = absurd (cc)
  screen_vectors-Accounted cs from to (w, reply vs) eq =
      elim (Bool-cases (length vs == length cs)) [
        | inl same ↦
            let kept =
              screen-Accounted (paired cs vs) from to w (finish_delta-reply _ to (rw same at eq)) in
            rw (first_keys-paired cs vs ((==_iff _ _).0 same)) at kept
        | inr other ↦ absurd (let no = rw other at eq in cc)
      ]

  delta_semantic-Accounted :
      (provider : Option (Embed V W E)) (cs : List (DeltaItem F × String))
      (from to : DeltaResponse F) (w : W)
      → (delta_semantic m provider cs from w).1 ≡ reply to
      → Accounted k (first_keys cs) from to
  unfolding delta_semantic
  delta_semantic-Accounted none cs from to w eq = absurd (cc)
  delta_semantic-Accounted (some embed) cs from to w eq = screen_vectors-Accounted cs from to _ eq

  abbrev sifted : DeltaRequest F → Sifted F
  sifted req = sift (known_keys req.known_ids) m.semantic_enabled req.items unsifted

  delta_items-Accounted :
      (req : DeltaRequest F) (to : DeltaResponse F) (w : W)
      → (delta_items m req w).1 ≡ reply to
      → Accounted k (first_keys (sifted req).candidates) (response req (sifted req)) to
  unfolding delta_items
  delta_items-Accounted req to w eq =
      elim (Bool-cases (not m.semantic_enabled || is_nil (sifted req).candidates)) [
        | inl simple ↦
            let same =
              finish_delta-reply (w, reply (response req (sifted req))) to (rw simple at eq) in
            let none_left =
              no_search-candidates (known_keys req.known_ids) m.semantic_enabled req.items simple in
            ground (arith, same, ap (λ cs. length (first_keys cs)) none_left)
        | inr search ↦
            delta_semantic-Accounted m.provider (sifted req).candidates _ to w (rw search at eq)
      ]

  abbrev Counted : DeltaRequest F → DeltaResponse F → Type 0
  Counted req to =
      (length to.novel + to.duplicate_count ≡ length req.items)
      × (to.total ≡ length req.items)
      × (count k (item_keys to.novel) ≤ novel_count req k)

  delta_items-Counted :
      (req : DeltaRequest F) (to : DeltaResponse F) (w : W)
      → (delta_items m req w).1 ≡ reply to
      → Counted req to
  delta_items-Counted req to w eq =
      let known = known_keys req.known_ids in
      ground (
        arith,
        delta_items-Accounted req to w eq,
        handled-sift known m.semantic_enabled req.items unsifted,
        held_count-sift known m.semantic_enabled k req.items unsifted,
        length-first_keys (sifted req).candidates,
      )

  -- When Delta answers with a response, the novel items and the duplicates together are as many as
  -- the items of the request, which is the total; an item without id and hash is novel at most as
  -- often as it stands in the request; and any other key is novel at most once, and not at all if
  -- it is known or not in the request.
  pub delta-Counted :
      (req : DeltaRequest F) (to : DeltaResponse F) (w : W)
      → (delta (some m) req w).1 ≡ reply to
      → (length to.novel + to.duplicate_count ≡ length req.items)
        × (to.total ≡ length req.items)
        × (count k (item_keys to.novel) ≤ novel_count req k)
  unfolding delta
  delta-Counted req to w eq = elim (Bool-cases (is_empty (trim_space req.topic_id))) [
    | inl blank ↦ absurd (let no = rw blank at eq in cc)
    | inr named ↦ delta_items-Counted req to w (rw named at eq)
  ]

  -- With the semantic search off, Delta always answers a request that names a topic, whatever the
  -- store answers, and its novel items are exactly these: those without id and hash, and one for
  -- each other key of the request that is not known.
  pub delta_exact :
      (req : DeltaRequest F) (w : W)
      → m.semantic_enabled ≡ false
      → is_empty (trim_space req.topic_id) ≡ false
      → (to : DeltaResponse F) × ((delta (some m) req w).1 ≡ reply to)
        × (count k (item_keys to.novel) ≡ novel_count req k)
  unfolding delta delta_items finish_delta
  delta_exact req w off named =
      let known = known_keys req.known_ids in
      let simple = no_search m.semantic_enabled (is_nil (sifted req).candidates) off in
      (
        response req (sifted req),
        rw named (rw simple refl),
        ground (
          arith,
          held_count-sift known m.semantic_enabled k req.items unsifted,
          ap (λ cs. count k (first_keys cs))
              (no_search-candidates known m.semantic_enabled req.items simple),
        ),
      )
