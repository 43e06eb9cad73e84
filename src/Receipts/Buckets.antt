-- ===== src/Receipts/Buckets.antt =====
-- domain/executed.ts: how many objects the lists of a receipt may hold, which lists contain which, and
-- when the expectation of one receipt succeeds.
use sui_effect.Prelude.{
  ℕ, Bool, true, false, Option, some, List, [], ◌∷◌, ◌≡◌, refl, ◌↔◌, ◌≤◌, ◌+◌, ◌&&◌, ◌||◌, not, map,
  filter, length, Text, arith, In,
}
use sui_effect.Journal.{success}
use sui_effect.Moves.{Tags}
use sui_effect.Receipts.{
  Change, ChangedRef, ChangeSource, UnexpectedEffects, Owner, Side, OutputState, InputState,
  IdOperation, object_write, unknown_output, no_output, package_write, accumulator_write,
  unknown_input, does_not_exist, exists, unknown_operation, no_operation, created, deleted, input,
  output, is_accumulator_write, wrote_an_object, is_package_write, is_no_output, is_exists,
  may_exist, is_none_operation, is_created_operation, is_deleted_operation,
}
use sui_effect.Receipts.Selecting.{
  ref_of, is_created, is_mutated, is_deleted, is_wrapped, is_transferred, is_published, select_from,
  select, any_ref, only_one, by_type, package_ref, created_where, created_of, mutated_of,
  deleted_of, wrapped_of, transferred_of, packages_published, expect_created,
}

abbrev as_number : Bool → ℕ
as_number true = 1
as_number false = 0

one_operation :
    (o : IdOperation)
    → as_number (is_created_operation o)
        + as_number (is_none_operation o)
        + as_number (is_deleted_operation o)
      ≤ 1
unfolding is_created_operation is_none_operation is_deleted_operation
one_operation unknown_operation = omega arith
one_operation no_operation = omega arith
one_operation created = omega arith
one_operation deleted = omega arith

one_output :
    (o : OutputState)
    → as_number (wrote_an_object o) + as_number (is_package_write o) + as_number (is_no_output o)
      ≤ 1
unfolding wrote_an_object is_package_write is_no_output
one_output unknown_output = omega arith
one_output no_output = omega arith
one_output object_write = omega arith
one_output package_write = omega arith
one_output accumulator_write = omega arith

-- Of one change, at most one holds; a published package is in none of the three.
one_bucket :
    (c : Change)
    → as_number (is_created c)
        + as_number (is_mutated c)
        + as_number (is_deleted c || is_wrapped c)
        + as_number (is_published c)
      ≤ 1
unfolding is_created is_mutated is_deleted is_wrapped is_published
one_bucket c = ground (arith, one_operation c.id_operation, one_output c.output_state)

length-select_from :
    (source : ChangeSource) (p : Change → Bool) (side : Side) (keep : ChangedRef → Bool)
    (c : Change) (cs : List Change)
    → length (select_from source p side keep (c ∷ cs))
      ≤ as_number (p c) + length (select_from source p side keep cs)
unfolding select_from
length-select_from source p side keep c cs = ground arith

length-filter :
    (p : Change → Bool) (c : Change) (cs : List Change)
    → length (filter p (c ∷ cs)) ≤ as_number (p c) + length (filter p cs)
length-filter p c cs = ground arith

length-map : {A B : Type 0} (f : A → B) (xs : List A) → length (map f xs) ≡ length xs
length-map f [] = refl
length-map f (x ∷ xs) = omega (arith, length-map f xs)

select_from-sub :
    (source : ChangeSource) (p q : Change → Bool) (side : Side) (keep : ChangedRef → Bool)
    (cs : List Change) (r : ChangedRef)
    → ((c : Change) → p c ≡ true → q c ≡ true)
    → In r (select_from source p side keep cs)
    → In r (select_from source q side keep cs)
unfolding select_from
select_from-sub source p q side keep [] r h m = m
select_from-sub source p q side keep (c ∷ cs) r h m =
    ground (arith, h c, select_from-sub source p q side keep cs r h)

is_wrapped-deleted : (c : Change) → is_wrapped c ≡ true → is_deleted c || is_wrapped c ≡ true
is_wrapped-deleted c h = ground arith

exists-may_exist : (i : InputState) → is_exists i ≡ true → may_exist i ≡ true
unfolding is_exists may_exist
exists-may_exist unknown_input h = cc
exists-may_exist does_not_exist h = cc
exists-may_exist exists h = refl

is_transferred-mutated : (c : Change) → is_transferred c ≡ true → is_mutated c ≡ true
unfolding is_transferred is_mutated
is_transferred-mutated c h = ground (arith, exists-may_exist c.input_state)

module _ (tags : Tags) where
  buckets-le :
      (source : ChangeSource) (cs : List Change) (wanted : Option Text)
      → length (select_from source is_created output (by_type tags wanted) cs)
          + length (select_from source is_mutated output (by_type tags wanted) cs)
          + length (select_from source (λ c. is_deleted c || is_wrapped c) input any_ref cs)
          + length (filter is_published cs)
        ≤ length cs
  unfolding select_from
  buckets-le source [] wanted = omega arith
  buckets-le source (c ∷ cs) wanted = omega (
    arith,
    buckets-le source cs wanted,
    one_bucket c,
    length-select_from source is_created output (by_type tags wanted) c cs,
    length-select_from source is_mutated output (by_type tags wanted) c cs,
    length-select_from source (λ c. is_deleted c || is_wrapped c) input any_ref c cs,
    length-filter is_published c cs,
  )

  transferred-In :
      (source : ChangeSource) (wanted : Option Text) (cs : List Change)
      (t : ChangedRef × Option Owner)
      → In t (
          filter
            (λ t. by_type tags wanted t.0)
            (map
              (λ c. (ref_of source c output, c.input_owner))
              (filter (λ c. not (is_accumulator_write c.output_state) && is_transferred c) cs)))
      → In t.0 (select_from source is_mutated output (by_type tags wanted) cs)
  unfolding select_from
  transferred-In source wanted [] t m = m
  transferred-In source wanted (c ∷ cs) t m =
      ground (arith, is_transferred-mutated c, transferred-In source wanted cs t)

  -- How the lists of a receipt relate.
  pub record Sorted (source : ChangeSource) (wanted : Option Text) : Type 0 where
    pub counted :
        length (created_of tags source wanted)
          + length (mutated_of tags source wanted)
          + length (deleted_of tags source)
          + length (packages_published tags source)
        ≤ length source.changed_objects
    pub transferred :
        (t : ChangedRef × Option Owner)
        → In t (transferred_of tags source wanted)
        → In t.0 (mutated_of tags source wanted)
    pub wrapped : (r : ChangedRef) → In r (wrapped_of tags source) → In r (deleted_of tags source)

  -- Of the changed objects of a transaction, no more are listed as created, mutated, deleted and published
  -- together than there are changes; every transferred object is listed as mutated, and every wrapped one as
  -- deleted.
  pub created_of-Sorted : (source : ChangeSource) (wanted : Option Text) → Sorted source wanted
  unfolding created_of created_where mutated_of deleted_of wrapped_of transferred_of
      packages_published select
  created_of-Sorted source wanted = record {
    counted = omega (
      arith,
      buckets-le source source.changed_objects wanted,
      length-map (λ c. package_ref (ref_of source c output))
          (filter is_published source.changed_objects),
    );
    transferred = transferred-In source wanted source.changed_objects;
    wrapped = λ r m.
        select_from-sub source is_wrapped (λ c. is_deleted c || is_wrapped c) input any_ref
          source.changed_objects r is_wrapped-deleted m;
  }

  only_one-success :
      (e : UnexpectedEffects) (found : List ChangedRef) (r : ChangedRef)
      → (only_one e found ≡ success r) ↔ (found ≡ r ∷ [])
  unfolding only_one
  only_one-success e [] r = (λ h. cc, λ h. cc)
  only_one-success e (x ∷ []) r = (λ h. ground (arith, h), λ h. ground (arith, h))
  only_one-success e (x ∷ y ∷ more) r = (λ h. cc, λ h. ground (arith, h))

  -- A receipt that expects one created object of a type succeeds with an object exactly when that object is the only
  -- one of its type that was created.
  pub expect_created_iff :
      (source : ChangeSource) (wanted : Text) (r : ChangedRef)
      → (expect_created tags source wanted ≡ success r)
        ↔ (created_of tags source (some wanted) ≡ r ∷ [])
  unfolding expect_created
  expect_created_iff source wanted r = only_one-success _ (created_of tags source (some wanted)) r
