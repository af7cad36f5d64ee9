-- ===== src/Mongo/Scan/Sound.antt =====
-- What `scanValue` accepts: the values in which every property, at any depth, is harmless.
use ask_sql.Prelude.{
  ℕ, zero, suc, ◌≤◌, true, false, none, some, Text, codes, text_eq, has, <|>_none, <|>_none_intro,
  ◌≡◌, refl, inl, inr, ◌↔◌, arith, Bool-cases, Option-cases, Member, at_head, further, has→Member,
}
use ask_sql.Json.Depth.{depth, depth_items, depth_fields}
use ask_sql.Json.{
  Json, null, bool, num, str, arr, obj, Items, nil, cons, Fields, end, field, get, Has, first,
  later, In, head, tail,
}
use ask_sql.Mongo.Policy.{MongoGuardPolicy}
use ask_sql.Mongo.Pattern.{IsSafePattern, check_pattern-IsSafePattern, IsSafePattern-check_pattern}
use ask_sql.Mongo.Scan.{
  denied_operators_anywhere, regex_operators, is_regex_key, regex_field, regex_pattern_of,
  inspect_regex, scan_field, scan_value, scan_items, scan_fields,
}

-- Somewhere in the value stands an object with the property `k : v`.
pub data Occurs (k : Text) (v : Json) : Json → Type 0 where
  here : {fs : Fields} → Has k v fs → Occurs k v (obj fs)
  in_item : {x : Json} {xs : Items} → In x xs → Occurs k v x → Occurs k v (arr xs)
  in_field : {j : Text} {w : Json} {fs : Fields} → Has j w fs → Occurs k v w → Occurs k v (obj fs)

-- `c` is the regular expression that the property `k : v` carries.
pub data Carries (k : Text) : Json → Json → Type 0 where
  direct : {v : Json} → is_regex_key k ≡ true → Carries k v v
  operator :
      {fs : Fields} {c : Json}
      → has regex_operators k ≡ true
      → get (codes "regex") fs ≡ some c
      → Carries k (obj fs) c

-- The property runs no server-side code, and its regular expression, if it carries one, can be read
-- as text and is safe.
pub record IsHarmless (policy : MongoGuardPolicy) (k : Text) (v : Json) : Type 0 where
  pub no_code : has denied_operators_anywhere k ≡ false
  pub safe_regex :
      (c : Json)
      → Carries k v c
      → (pattern : Text) × (regex_pattern_of c ≡ some pattern) × IsSafePattern policy pattern

regex_operators-is_regex_key : {k : Text} → Member k regex_operators → is_regex_key k ≡ false
unfolding text_eq
regex_operators-is_regex_key (at_head e) = rw (← e)
regex_operators-is_regex_key (further (at_head e)) = rw (← e)
regex_operators-is_regex_key (further (further (at_head e))) = rw (← e)
regex_operators-is_regex_key (further (further (further a))) = elim a [ ]

module _ (policy : MongoGuardPolicy) where
  inspect_regex_safe :
      (c : Json)
      → inspect_regex c policy ≡ none
      → (pattern : Text) × (regex_pattern_of c ≡ some pattern) × IsSafePattern policy pattern
  unfolding inspect_regex
  inspect_regex_safe c h = elim (Option-cases (regex_pattern_of c)) [
    | inl e ↦ cc (rw (e, inspect_regex) at h)
    | inr (pattern, e) ↦
        (pattern, e, check_pattern-IsSafePattern pattern policy (rw (e, inspect_regex) at h))
  ]

  safe_inspect_regex :
      (c : Json)
      → (pattern : Text) × (regex_pattern_of c ≡ some pattern) × IsSafePattern policy pattern
      → inspect_regex c policy ≡ none
  unfolding inspect_regex
  safe_inspect_regex c (pattern, e, safe) = rw (e, inspect_regex) (IsSafePattern-check_pattern safe)

  scan_field-Carries :
      {k : Text} {v c : Json}
      → Carries k v c
      → scan_field policy k v ≡ none
      → inspect_regex c policy ≡ none
  unfolding scan_field
  scan_field-Carries (direct e) h = ground arith
  scan_field-Carries {k} (operator e g) h =
      let other = regex_operators-is_regex_key (has→Member regex_operators k e) in ground arith

  scan_field-IsHarmless :
      (k : Text) (v : Json) → scan_field policy k v ≡ none → IsHarmless policy k v
  scan_field-IsHarmless k v h = record {
    no_code = unfold scan_field in ground arith;
    safe_regex = λ c carried. inspect_regex_safe c (scan_field-Carries carried h);
  }

  regex_field-none :
      (k : Text) (v : Json)
      → IsHarmless policy k v
      → has regex_operators k ≡ true
      → elim (regex_field v) [ some c ↦ inspect_regex c policy | none ↦ none ] ≡ none
  regex_field-none k (obj fs) safe e = elim (Option-cases (get (codes "regex") fs)) [
    | inl g ↦ rw g
    | inr (c, g) ↦ rw g (safe_inspect_regex c (safe.safe_regex c (operator e g)))
  ]
  regex_field-none k _ safe e = refl

  IsHarmless-scan_field :
      (k : Text) (v : Json) → IsHarmless policy k v → scan_field policy k v ≡ none
  unfolding scan_field
  IsHarmless-scan_field k v safe = rw (safe.no_code) (elim (Bool-cases (is_regex_key k)) [
    | inl e ↦ rw e (safe_inspect_regex v (safe.safe_regex v (direct e)))
    | inr e ↦ rw e (elim (Bool-cases (has regex_operators k)) [
      | inl o ↦ rw o (regex_field-none k v safe o)
      | inr o ↦ rw o
    ])
  ])

  scan_items-In :
      (room : ℕ) {x : Json} {xs : Items}
      → In x xs
      → scan_items policy room xs ≡ none
      → scan_value policy room x ≡ none
  unfolding scan_items
  scan_items-In room head h = (<|>_none _ _ h).0
  scan_items-In room (tail i) h = scan_items-In room i (<|>_none _ _ h).1

  scan_fields-Has :
      (room : ℕ) {k : Text} {v : Json} {fs : Fields}
      → Has k v fs
      → scan_fields policy room fs ≡ none
      → (scan_field policy k v ≡ none) × (scan_value policy room v ≡ none)
  unfolding scan_fields
  scan_fields-Has room first h = ((<|>_none _ _ h).0, (<|>_none _ _ (<|>_none _ _ h).1).0)
  scan_fields-Has room (later m) h = scan_fields-Has room m (<|>_none _ _ (<|>_none _ _ h).1).1

  pub scan_value-IsHarmless :
      (room : ℕ) {k : Text} {v j : Json}
      → Occurs k v j
      → scan_value policy room j ≡ none
      → IsHarmless policy k v
  unfolding scan_value
  scan_value-IsHarmless zero o h = cc
  scan_value-IsHarmless (suc room) (here m) h =
      scan_field-IsHarmless _ _ (scan_fields-Has room m h).0
  scan_value-IsHarmless (suc room) (in_item i o) h =
      scan_value-IsHarmless room o (scan_items-In room i h)
  scan_value-IsHarmless (suc room) (in_field m o) h =
      scan_value-IsHarmless room o (scan_fields-Has room m h).1

-- A value that passes is no deeper than the room.
mutual
  unfolding scan_value depth

  depth-scan_value :
      (policy : MongoGuardPolicy) (room : ℕ) (j : Json)
      → scan_value policy room j ≡ none
      → depth j ≤ room
  depth-scan_value policy zero j h = cc
  depth-scan_value policy (suc room) (arr xs) h = omega (arith, depth-scan_items policy room xs h)
  depth-scan_value policy (suc room) (obj fs) h = omega (arith, depth-scan_fields policy room fs h)
  depth-scan_value policy (suc room) null h = omega arith
  depth-scan_value policy (suc room) (bool b) h = omega arith
  depth-scan_value policy (suc room) (num n) h = omega arith
  depth-scan_value policy (suc room) (str s) h = omega arith

  depth-scan_items :
      (policy : MongoGuardPolicy) (room : ℕ) (xs : Items)
      → scan_items policy room xs ≡ none
      → depth_items xs ≤ room
  depth-scan_items policy room nil h = omega arith
  depth-scan_items policy room (cons x xs) h =
      let e = <|>_none (scan_value policy room x) (scan_items policy room xs) h in
      omega (arith, depth-scan_value policy room x e.0, depth-scan_items policy room xs e.1)

  depth-scan_fields :
      (policy : MongoGuardPolicy) (room : ℕ) (fs : Fields)
      → scan_fields policy room fs ≡ none
      → depth_fields fs ≤ room
  depth-scan_fields policy room end h = omega arith
  depth-scan_fields policy room (field k v fs) h =
      let e =
        <|>_none (scan_value policy room v) (scan_fields policy room fs)
          (<|>_none (scan_field policy k v) _ h).1 in
      omega (arith, depth-scan_value policy room v e.0, depth-scan_fields policy room fs e.1)

mutual
  unfolding scan_value depth

  scan_value_complete :
      (policy : MongoGuardPolicy) (room : ℕ) (j : Json)
      → depth j ≤ room
      → ((k : Text) (v : Json) → Occurs k v j → IsHarmless policy k v)
      → scan_value policy room j ≡ none
  scan_value_complete policy zero (arr xs) d safe = absurd (omega arith)
  scan_value_complete policy zero (obj fs) d safe = absurd (omega arith)
  scan_value_complete policy zero _ d safe = absurd (omega arith)
  scan_value_complete policy (suc room) (arr xs) d safe =
      scan_items_complete policy room xs (omega arith) (λ x i k v o. safe k v (in_item i o))
  scan_value_complete policy (suc room) (obj fs) d safe =
      scan_fields_complete policy room fs (omega arith) (λ k v m. safe k v (here m))
        (λ j w m k v o. safe k v (in_field m o))
  scan_value_complete policy (suc room) _ d safe = refl

  scan_items_complete :
      (policy : MongoGuardPolicy) (room : ℕ) (xs : Items)
      → depth_items xs ≤ room
      → ((x : Json) → In x xs → (k : Text) (v : Json) → Occurs k v x → IsHarmless policy k v)
      → scan_items policy room xs ≡ none
  scan_items_complete policy room nil d safe = refl
  scan_items_complete policy room (cons x xs) d safe =
      <|>_none_intro (scan_value_complete policy room x (omega arith) (safe x head))
        (scan_items_complete policy room xs (omega arith) (λ y i. safe y (tail i)))

  scan_fields_complete :
      (policy : MongoGuardPolicy) (room : ℕ) (fs : Fields)
      → depth_fields fs ≤ room
      → ((k : Text) (v : Json) → Has k v fs → IsHarmless policy k v)
      → ((j : Text) (w : Json)
          → Has j w fs
          → (k : Text) (v : Json) → Occurs k v w
          → IsHarmless policy k v)
      → scan_fields policy room fs ≡ none
  scan_fields_complete policy room end d own safe = refl
  scan_fields_complete policy room (field k v fs) d own safe =
      <|>_none_intro (IsHarmless-scan_field policy k v (own k v first)) (
        <|>_none_intro (scan_value_complete policy room v (omega arith) (safe k v first)) (
          scan_fields_complete policy room fs (omega arith) (λ j w m. own j w (later m))
            (λ j w m. safe j w (later m))))

-- `scanValue` accepts exactly the values that are no deeper than the room and in which every
-- property, at any depth, runs no server-side code and carries no regular expression that is
-- unreadable or unsafe.
pub scan_value_iff :
    (policy : MongoGuardPolicy) (room : ℕ) (j : Json)
    → (scan_value policy room j ≡ none)
      ↔ ((depth j ≤ room) × ((k : Text) (v : Json) → Occurs k v j → IsHarmless policy k v))
scan_value_iff policy room j = (
  λ h. (depth-scan_value policy room j h, λ k v o. scan_value-IsHarmless policy room o h),
  λ (d, safe). scan_value_complete policy room j d safe,
)
