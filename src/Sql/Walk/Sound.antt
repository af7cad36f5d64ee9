-- ===== src/Sql/Walk/Sound.antt =====
-- What `walk` accepts: the trees in which every node, at any depth, passes each of the five tests.
use ask_sql.Prelude.{ℕ, zero, suc, ◌≤◌, none, Text, <|>_none, <|>_none_intro, ◌≡◌, refl, ◌↔◌, arith}
use ask_sql.Json.{
  Num, Json, null, bool, num, str, arr, obj, Items, nil, cons, Fields, end, field, Has, first,
  later, In, head, tail,
}
use ask_sql.Json.Depth.{depth, depth_items, depth_fields}
use ask_sql.Sql.Policy.{WalkContext}
use ask_sql.Sql.Walk.{node_violation, walk, walk_items, walk_fields}
use ask_sql.Sql.Walk.Node.{
  IsReadOnlyNode, node_violation-IsReadOnlyNode, IsReadOnlyNode-node_violation,
}

-- The node stands somewhere in the tree.
pub data Node (fs : Fields) : Json → Type 0 where
  root : Node fs (obj fs)
  below_item : {x : Json} {xs : Items} → In x xs → Node fs x → Node fs (arr xs)
  below_field : {k : Text} {v : Json} {gs : Fields} → Has k v gs → Node fs v → Node fs (obj gs)

module _ (number_text : Num → Text) (ctx : WalkContext) where
  -- Every node of the tree is read-only.
  abbrev pub IsReadOnlyTree : Json → Type 0
  IsReadOnlyTree j = (fs : Fields) → Node fs j → IsReadOnlyNode number_text ctx fs

  walk_items-In :
      (room : ℕ) {x : Json} {xs : Items}
      → In x xs
      → walk_items number_text ctx room xs ≡ none
      → walk number_text ctx room x ≡ none
  unfolding walk_items
  walk_items-In room head h = (<|>_none _ _ h).0
  walk_items-In room (tail i) h = walk_items-In room i (<|>_none _ _ h).1

  walk_fields-Has :
      (room : ℕ) {k : Text} {v : Json} {fs : Fields}
      → Has k v fs
      → walk_fields number_text ctx room fs ≡ none
      → walk number_text ctx room v ≡ none
  unfolding walk_fields
  walk_fields-Has room first h = (<|>_none _ _ h).0
  walk_fields-Has room (later m) h = walk_fields-Has room m (<|>_none _ _ h).1

  walk-Node :
      (room : ℕ) {fs : Fields} {j : Json}
      → Node fs j
      → walk number_text ctx room j ≡ none
      → IsReadOnlyNode number_text ctx fs
  unfolding walk
  walk-Node zero o h = cc
  walk-Node (suc room) {fs} root h =
      node_violation-IsReadOnlyNode number_text ctx fs (<|>_none _ _ h).0
  walk-Node (suc room) (below_item i o) h = walk-Node room o (walk_items-In room i h)
  walk-Node (suc room) (below_field m o) h =
      walk-Node room o (walk_fields-Has room m (<|>_none _ _ h).1)

  mutual
    unfolding walk depth

    depth-walk : (room : ℕ) (j : Json) → walk number_text ctx room j ≡ none → depth j ≤ room
    depth-walk zero j h = cc
    depth-walk (suc room) (arr xs) h = omega (arith, depth-walk_items room xs h)
    depth-walk (suc room) (obj fs) h =
        omega
          (arith, depth-walk_fields room fs (<|>_none (node_violation number_text ctx fs) _ h).1)
    depth-walk (suc room) null h = omega arith
    depth-walk (suc room) (bool b) h = omega arith
    depth-walk (suc room) (num n) h = omega arith
    depth-walk (suc room) (str s) h = omega arith

    depth-walk_items :
        (room : ℕ) (xs : Items) → walk_items number_text ctx room xs ≡ none → depth_items xs ≤ room
    depth-walk_items room nil h = omega arith
    depth-walk_items room (cons x xs) h =
        let e = <|>_none (walk number_text ctx room x) (walk_items number_text ctx room xs) h in
        omega (arith, depth-walk room x e.0, depth-walk_items room xs e.1)

    depth-walk_fields :
        (room : ℕ) (fs : Fields)
        → walk_fields number_text ctx room fs ≡ none
        → depth_fields fs ≤ room
    depth-walk_fields room end h = omega arith
    depth-walk_fields room (field k v fs) h =
        let e = <|>_none (walk number_text ctx room v) (walk_fields number_text ctx room fs) h in
        omega (arith, depth-walk room v e.0, depth-walk_fields room fs e.1)

  mutual
    unfolding walk depth

    walk_complete :
        (room : ℕ) (j : Json)
        → depth j ≤ room
        → IsReadOnlyTree j
        → walk number_text ctx room j ≡ none
    walk_complete zero (arr xs) d safe = absurd (omega arith)
    walk_complete zero (obj fs) d safe = absurd (omega arith)
    walk_complete zero _ d safe = absurd (omega arith)
    walk_complete (suc room) (arr xs) d safe =
        walk_items_complete room xs (omega arith) (λ x i fs o. safe fs (below_item i o))
    walk_complete (suc room) (obj fs) d safe =
        <|>_none_intro (IsReadOnlyNode-node_violation number_text ctx fs (safe fs root))
          (walk_fields_complete room fs (omega arith) (λ k v m gs o. safe gs (below_field m o)))
    walk_complete (suc room) _ d safe = refl

    walk_items_complete :
        (room : ℕ) (xs : Items)
        → depth_items xs ≤ room
        → ((x : Json) → In x xs → IsReadOnlyTree x)
        → walk_items number_text ctx room xs ≡ none
    walk_items_complete room nil d safe = refl
    walk_items_complete room (cons x xs) d safe =
        <|>_none_intro (walk_complete room x (omega arith) (safe x head))
          (walk_items_complete room xs (omega arith) (λ y i. safe y (tail i)))

    walk_fields_complete :
        (room : ℕ) (fs : Fields)
        → depth_fields fs ≤ room
        → ((k : Text) (v : Json) → Has k v fs → IsReadOnlyTree v)
        → walk_fields number_text ctx room fs ≡ none
    walk_fields_complete room end d safe = refl
    walk_fields_complete room (field k v fs) d safe =
        <|>_none_intro (walk_complete room v (omega arith) (safe k v first))
          (walk_fields_complete room fs (omega arith) (λ j w m. safe j w (later m)))

  -- `walk` accepts exactly the trees that are no deeper than the room and in which every node, at
  -- any depth, is read-only: its type is not one of a statement that writes, a SELECT has no INTO, no
  -- relation is named like a file or a URL, Oracle reads no sequence through a qualified column, and
  -- no function is called that the context denies.
  pub walk_iff :
      (room : ℕ) (j : Json)
      → (walk number_text ctx room j ≡ none) ↔ ((depth j ≤ room) × IsReadOnlyTree j)
  walk_iff room j = (
    λ h. (depth-walk room j h, λ fs o. walk-Node room o h),
    λ (d, safe). walk_complete room j d safe,
  )
