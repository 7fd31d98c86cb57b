-- ===== src/Invalidation/TagIndex/Known.antt =====
-- The trie of src/invalidation/TagIndex.ts and its map of known keys hold the same keys.
use layercache.Base.{
  ℕ, zero, suc, ◌+◌, ltb, leb, true, false, arith, Option, none, some, Option-cases, Bool-cases,
  List, [], ◌∷◌, ◌≡◌, ◌≢◌, refl, inl, inr, ◌⊎◌, sym, ◌∙◌,
}
use layercache.JsMap.{JsMap}
use layercache.JsMap
use layercache.JsMap.Laws.{get-set, get-delete}
use layercache.Invalidation.TagIndex.{
  TagIndex, Text, insert_known_key, remove_known_key, remove_oldest, prune_known_keys_if_needed,
  touch, track, replace_tags, remove, clear, Call,
}
use layercache.Invalidation.TagIndex
use layercache.Invalidation.TagIndex.Tree.{insert, remove_path, fresh_node}
use layercache.Invalidation.TagIndex.Tree.Words.{
  has_word, has_word-fresh, has_word-insert_same, has_word-insert_other, IsWithout,
  remove_path-IsWithout,
}

module _ (dec : Discrete Text) where
  -- The keys of the trie are the known keys.
  abbrev pub Agrees : TagIndex → Type 0
  Agrees s = (key : Text) → has_word key s.root ≡ JsMap.has dec key s.known_keys

  has-set_same :
      (k : Text) (now : ℕ) (m : JsMap Text ℕ) → JsMap.has dec k (JsMap.set dec k now m) ≡ true
  has-set_same k now m = ground (arith, get-set dec k k now m)

  has-set_other :
      (j k : Text) (now : ℕ) (m : JsMap Text ℕ)
      → j ≢ k
      → JsMap.has dec j (JsMap.set dec k now m) ≡ JsMap.has dec j m
  has-set_other j k now m n = ground (arith, get-set dec j k now m)

  has-delete_same : (k : Text) (m : JsMap Text ℕ) → JsMap.has dec k (JsMap.delete dec k m) ≡ false
  has-delete_same k m = ground (arith, get-delete dec k k m)

  has-delete_other :
      (j k : Text) (m : JsMap Text ℕ)
      → j ≢ k
      → JsMap.has dec j (JsMap.delete dec k m) ≡ JsMap.has dec j m
  has-delete_other j k m n = ground (arith, get-delete dec j k m)

  has_word-inserted :
      (now : ℕ) (k : Text) (s : TagIndex)
      → Agrees s
      → (j : Text)
      → has_word j (insert k s.root) ≡ JsMap.has dec j (JsMap.set dec k now s.known_keys)
  has_word-inserted now k s a j = elim (dec j k) [
    | yes e ↦ rw e (has_word-insert_same k s.root ∙ sym (has-set_same k now s.known_keys))
    | no n ↦ has_word-insert_other k j s.root n ∙ a j ∙ sym (has-set_other j k now s.known_keys n)
  ]

  has-moved :
      (now : ℕ) (k : Text) (s : TagIndex) (previous : ℕ)
      → JsMap.get dec k s.known_keys ≡ some previous
      → (j : Text)
      → JsMap.has dec j s.known_keys
        ≡ JsMap.has dec j (JsMap.set dec k now (JsMap.delete dec k s.known_keys))
  has-moved now k s previous e j = elim (dec j k) [
    | yes p ↦ rw (p, e) (sym (has-set_same k now (JsMap.delete dec k s.known_keys)))
    | no n ↦ sym (
        has-set_other j k now (JsMap.delete dec k s.known_keys) n
        ∙ has-delete_other j k s.known_keys n)
  ]

  insert_known_key-Agrees :
      (now : ℕ) (k : Text) (s : TagIndex) → Agrees s → Agrees (insert_known_key dec now k s).0
  unfolding insert_known_key
  insert_known_key-Agrees now k s a = elim (Option-cases (JsMap.get dec k s.known_keys)) [
    | inl e ↦ rw (e, insert_known_key) (has_word-inserted now k s a)
    | inr (p, e) ↦ elim (Bool-cases (ltb now (p + s.touch_refresh_interval_ms))) [
      | inl b ↦ rw (e, b, insert_known_key) a
      | inr b ↦ rw (e, b, insert_known_key) (λ j. a j ∙ has-moved now k s p e j)
    ]
  ]

  without_key :
      (k : Text) (s : TagIndex)
      → Agrees s
      → (o : Option TagIndex.Tree.Trie) → IsWithout k s.root o
      → (j : Text)
      → has_word j (elim o [ none ↦ s.root | some t ↦ t ])
        ≡ JsMap.has dec j (JsMap.delete dec k s.known_keys)
  without_key k s a none w j = elim (dec j k) [
    | yes e ↦ rw e (w ∙ sym (has-delete_same k s.known_keys))
    | no n ↦ a j ∙ sym (has-delete_other j k s.known_keys n)
  ]
  without_key k s a (some t) w j = elim (dec j k) [
    | yes e ↦ rw e (w.0 ∙ sym (has-delete_same k s.known_keys))
    | no n ↦ w.1 j n ∙ a j ∙ sym (has-delete_other j k s.known_keys n)
  ]

  remove_known_key-Agrees : (k : Text) (s : TagIndex) → Agrees s → Agrees (remove_known_key dec k s)
  unfolding remove_known_key
  remove_known_key-Agrees k s a = elim (Option-cases (JsMap.get dec k s.known_keys)) [
    | inl e ↦ rw (e, remove_known_key) a
    | inr (p, e) ↦
        rw (e, remove_known_key)
          (without_key k s a (remove_path k s.root) (remove_path-IsWithout k s.root))
  ]

  known-cases : (m : JsMap Text ℕ) → (m ≡ []) ⊎ ((x : Text × ℕ) × (r : JsMap Text ℕ) × (m ≡ x ∷ r))
  known-cases [] = inl refl
  known-cases (x ∷ m) = inr (x, m, refl)

  remove_oldest-Agrees : (n : ℕ) (s : TagIndex) → Agrees s → Agrees (remove_oldest dec n s)
  unfolding remove_oldest
  remove_oldest-Agrees zero s a = a
  remove_oldest-Agrees (suc n) s a = elim (known-cases s.known_keys) [
    | inl e ↦ rw (e, remove_oldest) a
    | inr (x, m, e) ↦
        rw (e, remove_oldest)
          (remove_oldest-Agrees n (remove_known_key dec x.0 s) (remove_known_key-Agrees x.0 s a))
  ]

  prune-Agrees : (s : TagIndex) → Agrees s → Agrees (prune_known_keys_if_needed dec s)
  unfolding prune_known_keys_if_needed
  prune-Agrees s a = elim (Bool-cases (leb (JsMap.size s.known_keys) s.max_known_keys)) [
    | inl b ↦ rw (b, prune_known_keys_if_needed) a
    | inr b ↦ rw (b, prune_known_keys_if_needed) (remove_oldest-Agrees _ s a)
  ]

  touch-Agrees : (now : ℕ) (k : Text) (s : TagIndex) → Agrees s → Agrees (touch dec now k s)
  unfolding touch
  touch-Agrees now k s a =
      let i = insert_known_key-Agrees now k s a in
      elim (Bool-cases (insert_known_key dec now k s).1) [
        | inl b ↦ rw (b, touch) (prune-Agrees _ i)
        | inr b ↦ rw (b, touch) i
      ]

  remove-Agrees : (k : Text) (s : TagIndex) → Agrees s → Agrees (remove dec k s)
  unfolding remove
  remove-Agrees k s a =
      let r = remove_known_key-Agrees k s a in
      elim (Option-cases (JsMap.get dec k (remove_known_key dec k s).key_to_tags)) [
        | inl e ↦ rw (e, remove) r
        | inr (t, e) ↦ rw (e, remove) r
      ]

  track-Agrees :
      (now : ℕ) (k : Text) (tags : List Text) (s : TagIndex)
      → Agrees s
      → Agrees (track dec now k tags s)
  unfolding track replace_tags
  track-Agrees now k [] s a = touch-Agrees now k s a
  track-Agrees now k (tag ∷ tags) s a = touch-Agrees now k s a

  step-Agrees : (s : TagIndex) (c : ℕ × Call) → Agrees s → Agrees (TagIndex.step dec s c)
  unfolding TagIndex.step clear
  step-Agrees s (now, TagIndex.touches k) a = touch-Agrees now k s a
  step-Agrees s (now, TagIndex.removes k) a = remove-Agrees k s a
  step-Agrees s (now, TagIndex.tracks k tags) a = track-Agrees now k tags s a
  step-Agrees s (now, TagIndex.clears) a = unfold JsMap.get in has_word-fresh

  run-Agrees : (s : TagIndex) (cs : List (ℕ × Call)) → Agrees s → Agrees (TagIndex.run dec s cs)
  unfolding TagIndex.run
  run-Agrees s [] a = a
  run-Agrees s (c ∷ cs) a = run-Agrees (TagIndex.step dec s c) cs (step-Agrees s c a)

  -- However an index is configured and whatever calls were made of it, at whatever times, a path of its
  -- trie ends in a marked node exactly for the keys that `knownKeys` has.
  pub run-init-Agrees :
      (max_known_keys touch_refresh_interval_ms : Option ℕ) (cs : List (ℕ × Call)) (key : Text)
      → let s = TagIndex.run dec (TagIndex.init max_known_keys touch_refresh_interval_ms) cs in
        has_word key s.root ≡ JsMap.has dec key s.known_keys
  run-init-Agrees max_known_keys touch_refresh_interval_ms cs key =
      run-Agrees (TagIndex.init max_known_keys touch_refresh_interval_ms) cs
        (unfold JsMap.get in has_word-fresh) key
