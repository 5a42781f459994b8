-- ===== src/Models/Index.antt =====
-- What the two indexes of `newModelSnapshot` hold, and so what `Match` finds.
use cmdcode_go.Base.{
  ℕ, zero, suc, ◌+◌, ◌≤◌, ◌<◌, String, ◌≡◌, ◌≢◌, refl, sym, ◌∙◌, true, false, Option, none, some,
  List, [], ◌∷◌, arith, str_dec, any_char, eqb, is_some, length, get_elem?, get_elem?-lt, to_lower,
  inl, inr, if◌then◌else◌, ℕ_discrete, ◌⊎◌, empty_map,
}
use native.Mathlib.Nat.{add-zero, add-suc, suc-add, zero-add}
use cmdcode_go.Models.{
  ModelDef, ModelSnapshot, short_name, index_def, index_from, new_snapshot, match, match_key,
  short_id, id_at, parse_model_name,
}

module _ (whole : List ModelDef) where
  pub record Clash (k : String) : Type 0 where
    pub one : ℕ
    pub two : ℕ
    pub apart : one ≢ two
    pub first : ModelDef
    pub second : ModelDef
    pub at_one : get_elem? whole one ≡ some first
    pub at_two : get_elem? whole two ≡ some second
    pub short_one : short_name first.id ≡ k
    pub short_two : short_name second.id ≡ k

  -- The indexes after the first `i` models.
  pub record Indexed (i : ℕ) (s : ModelSnapshot) : Type 0 where
    pub id_sound :
        (k : String) (n : ℕ)
        → s.by_id.get k ≡ some n
        → (d : ModelDef) × (get_elem? whole n ≡ some d) × (to_lower d.id ≡ k)
    pub id_last :
        (j : ℕ) (e : ModelDef)
        → j < i
        → get_elem? whole j ≡ some e
        → (n : ℕ) × (s.by_id.get (to_lower e.id) ≡ some n) × (j ≤ n) × (n < i)
    pub short_sound :
        (k : String) (n : ℕ)
        → s.by_short.get k ≡ some (some n)
        → (d : ModelDef) × (get_elem? whole n ≡ some d) × (short_name d.id ≡ k) × (n < i)
    -- An ambiguous short name is that of two models.
    pub short_clash : (k : String) → s.by_short.get k ≡ some none → Clash k
    pub short_unique :
        (k : String) (n j : ℕ) (e : ModelDef)
        → s.by_short.get k ≡ some (some n)
        → j < i
        → get_elem? whole j ≡ some e
        → short_name e.id ≡ k
        → j ≡ n
    pub short_present :
        (j : ℕ) (e : ModelDef)
        → j < i
        → get_elem? whole j ≡ some e
        → is_some (s.by_short.get (short_name e.id)) ≡ true

  module _ (i : ℕ) (d : ModelDef) (s : ModelSnapshot) (at : get_elem? whole i ≡ some d)
      (x : Indexed i s) where
    ambiguous_at :
        (k : String)
        → k ≡ short_name d.id
        → (r : Option (Option ℕ)) → s.by_short.get (short_name d.id) ≡ r
        → (if is_some r then none else some i) ≡ none
        → Clash k
    ambiguous_at k p none q h = cc
    ambiguous_at k p (some none) q h = x.short_clash k (ground arith)
    ambiguous_at k p (some (some n)) q h =
        let (e, found, same, below) = x.short_sound (short_name d.id) n q in
        record {
          one = n;
          two = i;
          apart = omega arith;
          first = e;
          second = d;
          at_one = found;
          at_two = at;
          short_one = same ∙ sym p;
          short_two = sym p;
        }

    index_def-Indexed : Indexed (suc i) (index_def i d s)
    index_def-Indexed = record {
      id_sound = λ k n h. elim (str_dec k (to_lower d.id)) [
        | yes p ↦ (d, ground arith, sym p)
        | no q ↦ x.id_sound k n (ground arith)
      ];
      id_last = λ j e h g. elim (str_dec (to_lower e.id) (to_lower d.id)) [
        | yes p ↦ (i, ground arith, omega arith, omega arith)
        | no q ↦ elim (ℕ_discrete j i) [
          | yes same ↦ absurd (ground arith)
          | no other ↦
              let (n, found, above, below) = x.id_last j e (omega arith) g in
              (n, ground arith, above, omega arith)
        ]
      ];
      short_sound = λ k n h. elim (str_dec k (short_name d.id)) [
        | yes p ↦ (d, ground arith, sym p, ground arith)
        | no q ↦
            let (e, found, same, below) = x.short_sound k n (ground arith) in
            (e, found, same, omega arith)
      ];
      short_clash = λ k h. elim (str_dec k (short_name d.id)) [
        | yes p ↦ ambiguous_at k p (s.by_short.get (short_name d.id)) refl (ground arith)
        | no q ↦ x.short_clash k (ground arith)
      ];
      short_unique = λ k n j e h b g p. elim (ℕ_discrete j i) [
        | yes same ↦ ground arith
        | no other ↦ elim (str_dec k (short_name d.id)) [
          | yes mine ↦ absurd (ground (arith, x.short_present j e (omega arith) g))
          | no q ↦ x.short_unique k n j e (ground arith) (omega arith) g p
        ]
      ];
      short_present = λ j e h g. elim (ℕ_discrete j i) [
        | yes same ↦ ground arith
        | no other ↦ ground (arith, x.short_present j e (omega arith) g)
      ];
    }

  index_from-Indexed :
      (ds : List ModelDef) (i : ℕ) (s : ModelSnapshot)
      → ((j : ℕ) → get_elem? whole (i + j) ≡ get_elem? ds j)
      → Indexed i s
      → Indexed (i + length ds) (index_from i ds s)
  unfolding index_from
  index_from-Indexed [] i s rest x = rw add-zero x
  index_from-Indexed (d ∷ ds) i s rest x =
      rw (add-suc, ← suc-add)
        (index_from-Indexed ds (suc i) (index_def i d s)
          (λ j. rw (suc-add, ← add-suc) (rest (suc j)))
          (index_def-Indexed i d s (rw add-zero at (rest zero)) x))

index_from-defs :
    (i : ℕ) (ds : List ModelDef) (s : ModelSnapshot) → (index_from i ds s).defs ≡ s.defs
unfolding index_from
index_from-defs i [] s = refl
index_from-defs i (d ∷ ds) s = index_from-defs (suc i) ds (index_def i d s)

pub new_snapshot-defs : (defs : List ModelDef) → (new_snapshot defs).defs ≡ defs
unfolding new_snapshot
new_snapshot-defs defs = index_from-defs 0 defs _

pub new_snapshot-Indexed : (defs : List ModelDef) → Indexed defs (length defs) (new_snapshot defs)
unfolding new_snapshot
new_snapshot-Indexed defs = rw (← zero-add (length defs)) (
    index_from-Indexed defs defs 0 (record { defs = defs; by_id = empty_map; by_short = empty_map })
      (λ j. rw zero-add)
      (record {
        id_sound = λ k n h. cc;
        id_last = λ j e h g. elim h [ ];
        short_sound = λ k n h. cc;
        short_clash = λ k h. cc;
        short_unique = λ k n j e h b g p. elim b [ ];
        short_present = λ j e h g. elim h [ ];
      }))

-- The name that a request means, without namespace and suffix, in lower case.
abbrev pub key_of : String → String
key_of name = to_lower (parse_model_name name).base

-- The model at `n` is what a key means: by its identifier, or by a short name that it shares with
-- no other model.
pub record Means (defs : List ModelDef) (key : String) (n : ℕ) (d : ModelDef) : Type 0 where
  pub at : get_elem? defs n ≡ some d
  pub how :
      (to_lower d.id ≡ key)
      ⊎ ((short_name d.id ≡ key)
          × ((j : ℕ) (e : ModelDef) → get_elem? defs j ≡ some e → short_name e.id ≡ key → j ≡ n))

module _ (defs : List ModelDef) where
  found_at :
      (n : ℕ) (d : ModelDef) (id : String)
      → get_elem? defs n ≡ some d
      → id_at (new_snapshot defs) n ≡ some id
      → d.id ≡ id
  found_at n d id at h = ground (arith, new_snapshot-defs defs)

  by_short_name :
      (key id : String) (r : Option (Option ℕ))
      → (new_snapshot defs).by_short.get key ≡ r
      → short_id (new_snapshot defs) r ≡ some id
      → (n : ℕ) × (d : ModelDef) × Means defs key n d × (d.id ≡ id)
  by_short_name key id none q h = cc
  by_short_name key id (some none) q h = cc
  by_short_name key id (some (some n)) q h =
      let x = new_snapshot-Indexed defs in
      let (d, at, same, below) = x.short_sound key n q in
      (
        n,
        d,
        record {
          at = at;
          how = inr (same, λ j e g p. x.short_unique key n j e q (get_elem?-lt defs j e g) g p);
        },
        found_at n d id at h,
      )

  by_key :
      (key id : String) (r : Option ℕ)
      → (new_snapshot defs).by_id.get key ≡ r
      → match_key (new_snapshot defs) key r ≡ some id
      → (n : ℕ) × (d : ModelDef) × Means defs key n d × (d.id ≡ id)
  by_key key id none q h =
      by_short_name key id ((new_snapshot defs).by_short.get key) refl (ground arith)
  by_key key id (some n) q h =
      let (d, at, same) = (new_snapshot-Indexed defs).id_sound key n q in
      (n, d, record { at = at; how = inl same }, found_at n d id at h)

  -- `Match` finds nothing but a model of the catalog that the name means, and answers with its
  -- identifier as the catalog spells it.
  pub match_sound :
      (name id : String)
      → match (new_snapshot defs) name ≡ some id
      → (n : ℕ) × (d : ModelDef) × Means defs (key_of name) n d × (d.id ≡ id)
  unfolding match
  match_sound name id h =
      by_key (key_of name) id ((new_snapshot defs).by_id.get (key_of name)) refl h

  -- The model that `Match` finds for the identifier of one in the catalog is spelled the same.
  pub match-id :
      (name : String) (j : ℕ) (e : ModelDef)
      → get_elem? defs j ≡ some e
      → to_lower e.id ≡ key_of name
      → (n : ℕ) × (d : ModelDef) × (get_elem? defs n ≡ some d)
        × (to_lower d.id ≡ key_of name)
        × (match (new_snapshot defs) name ≡ some d.id)
  unfolding match
  match-id name j e g same =
      let x = new_snapshot-Indexed defs in
      let (n, found, above, below) = x.id_last j e (get_elem?-lt defs j e g) g in
      let (d, at, spelled) = x.id_sound (to_lower e.id) n found in
      (n, d, at, spelled ∙ same, ground (arith, new_snapshot-defs defs))

  -- What `Match` does with a short name that no identifier spells.
  pub match-short :
      (name : String) (n : ℕ) (d : ModelDef)
      → get_elem? defs n ≡ some d
      → (new_snapshot defs).by_id.get (key_of name) ≡ none
      → any_char (λ c. eqb c b'/') (key_of name) ≡ false
      → (new_snapshot defs).by_short.get (key_of name) ≡ some (some n)
      → match (new_snapshot defs) name ≡ some d.id
  unfolding match
  match-short name n d at new unslashed found = ground (arith, new_snapshot-defs defs)
