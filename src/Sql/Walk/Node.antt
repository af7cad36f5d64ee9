-- ===== src/Sql/Walk/Node.antt =====
-- What a node of the syntax tree must not be, and the five tests of `walk` that find it out.
use ask_sql.Prelude.{
  Bool, true, false, ◌&&◌, ◌||◌, Option, none, some, List, [], ◌∷◌, Text, codes, has, <|>_none,
  <|>_none_intro, ||_false, &&_true, if◌then◌else◌, starts_with, ends_with, ◌≡◌, refl, ◌↔◌, inl,
  inr, arith, Bool-cases, Member, at_head, further,
}
use ask_sql.Json.{Num, Fields, get}
use ask_sql.Engine.{EngineKind}
use ask_sql.Sql.Types.{write_types}
use ask_sql.Sql.Deny.Others.{oracle_sequence_pseudo_columns}
use ask_sql.Sql.Policy.{
  WalkContext, statement_not_allowed, file_relation, sequence_pseudo_column, function_denied,
}
use ask_sql.Sql.Names.{column_name_of, looks_like_file_or_url}
use ask_sql.Sql.Walk.{
  type_of, is_type, is_present, writes_into, table_of, is_oracle, is_call, last_segment, any_prefix,
  any_suffix, is_denied, type_violation, into_violation, file_violation, sequence_violation, called,
  call_violation, node_violation,
}

-- Neither the name nor its last segment is denied, by itself or by a prefix, nor is the last
-- segment by a suffix.
pub record IsAllowedName (ctx : WalkContext) (name : Text) : Type 0 where
  pub whole_name : has ctx.deny_set name ≡ false
  pub last_name : has ctx.deny_set (last_segment name) ≡ false
  pub no_suffix : (t : Text) → Member t ctx.deny_suffixes → ends_with t (last_segment name) ≡ false
  pub no_prefix :
      (t : Text)
      → Member t ctx.deny_prefixes
      → (starts_with t name ≡ false) × (starts_with t (last_segment name) ≡ false)

any_prefix_none :
    (ts : List Text) (s : Text)
    → (any_prefix ts s ≡ false) ↔ ((t : Text) → Member t ts → starts_with t s ≡ false)
unfolding any_prefix
any_prefix_none [] s = (λ h t m. elim m [ ], λ h. refl)
any_prefix_none (w ∷ ts) s =
    let rest = any_prefix_none ts s in
    (
      λ h t m. elim m [
        | at_head e ↦ rw (← e) (||_false (starts_with w s) _ h).0
        | further n ↦ rest.0 (||_false (starts_with w s) _ h).1 t n
      ],
      λ h. rw (h w (at_head refl)) (rest.1 (λ t m. h t (further m))),
    )

any_suffix_none :
    (ts : List Text) (s : Text)
    → (any_suffix ts s ≡ false) ↔ ((t : Text) → Member t ts → ends_with t s ≡ false)
unfolding any_suffix
any_suffix_none [] s = (λ h t m. elim m [ ], λ h. refl)
any_suffix_none (w ∷ ts) s =
    let rest = any_suffix_none ts s in
    (
      λ h t m. elim m [
        | at_head e ↦ rw (← e) (||_false (ends_with w s) _ h).0
        | further n ↦ rest.0 (||_false (ends_with w s) _ h).1 t n
      ],
      λ h. rw (h w (at_head refl)) (rest.1 (λ t m. h t (further m))),
    )

five_false :
    (a b c d e : Bool)
    → (a || b || c || d || e) ≡ false
    → (a ≡ false) × (b ≡ false) × (c ≡ false) × (d ≡ false) × (e ≡ false)
five_false a b c d e h = ground arith

is_denied-IsAllowedName :
    (ctx : WalkContext) (name : Text) → (is_denied ctx name ≡ false) ↔ IsAllowedName ctx name
unfolding is_denied
is_denied-IsAllowedName ctx name = (
  λ h.
      let (a, b, c, d, e) = five_false _ _ _ _ _ h in
      record {
        whole_name = a;
        last_name = b;
        no_suffix = (any_suffix_none _ _).0 c;
        no_prefix = λ t m. ((any_prefix_none _ _).0 d t m, (any_prefix_none _ _).0 e t m);
      },
  λ r.
      let c = (any_suffix_none _ _).1 (r.no_suffix) in
      let d = (any_prefix_none ctx.deny_prefixes name).1 (λ t m. (r.no_prefix t m).0) in
      let e =
        (any_prefix_none ctx.deny_prefixes (last_segment name)).1 (λ t m. (r.no_prefix t m).1) in
      rw (r.whole_name, r.last_name, c, d, e) refl,
)

-- A test that refuses under a condition, and one that refuses what is there.
refusal_none :
    {A : Type 0} (b : Bool) (o : Option A)
    → ((if b then o else none) ≡ none) ↔ (b ≡ true → o ≡ none)
refusal_none true o = (λ h e. h, λ h. h refl)
refusal_none false o = (λ h e. cc, λ h. refl)

reading_none :
    {A R : Type 0} (o : Option A) (f : A → Bool) (g : A → R)
    → (elim o [ some a ↦ if f a then some (g a) else none | none ↦ none ] ≡ none)
      ↔ ((a : A) → o ≡ some a → f a ≡ false)
reading_none none f g = (λ h a e. cc, λ h. refl)
reading_none (some b) f g = elim (Bool-cases (f b)) [
  | inl t ↦ (λ h. cc (rw t at h), λ h. cc (h b refl))
  | inr t ↦ (λ h a e. let p : b ≡ a = cc in rw (← p) t, λ h. rw t refl)
]

type_violation-none :
    (node : Fields)
    → (type_violation node ≡ none)
      ↔ ((t : Text) → type_of node ≡ some t → has write_types t ≡ false)
unfolding type_violation
type_violation-none node = reading_none (type_of node) _ statement_not_allowed

file_violation-none :
    (node : Fields)
    → (file_violation node ≡ none)
      ↔ ((s : Text) → table_of node ≡ some s → looks_like_file_or_url s ≡ false)
unfolding file_violation
file_violation-none node = reading_none (table_of node) _ (λ s. file_relation)

into_violation-none :
    (node : Fields)
    → (into_violation node ≡ none)
      ↔ (is_type (codes "select") node ≡ true → writes_into node ≡ false)
unfolding into_violation
into_violation-none node = ground arith

sequence_violation-none :
    (engine : EngineKind) (node : Fields)
    → (sequence_violation engine node ≡ none) ↔ (
        (is_type (codes "column_ref") node && is_oracle engine) ≡ true
        → (col : Text) → column_name_of node ≡ some col
        → (is_present (get (codes "table") node) && has oracle_sequence_pseudo_columns col) ≡ false)
unfolding sequence_violation
sequence_violation-none engine node =
    let outer =
      refusal_none (is_type (codes "column_ref") node && is_oracle engine)
        (elim (column_name_of node) [
          | some col ↦
              if is_present (get (codes "table") node) && has oracle_sequence_pseudo_columns col
              then some (sequence_pseudo_column col)
              else none
          | none ↦ none
        ]) in
    let inner = reading_none (column_name_of node) _ sequence_pseudo_column in
    (λ h e. inner.0 (outer.0 h e), λ h. outer.1 (λ e. inner.1 (h e)))

module _ (number_text : Num → Text) (ctx : WalkContext) where
  -- What a node must not be, test by test.
  pub record IsReadOnlyNode (node : Fields) : Type 0 where
    pub no_write : (t : Text) → type_of node ≡ some t → has write_types t ≡ false
    pub no_into : is_type (codes "select") node ≡ true → writes_into node ≡ false
    pub no_file : (s : Text) → table_of node ≡ some s → looks_like_file_or_url s ≡ false
    pub no_sequence :
        (col : Text)
        → is_type (codes "column_ref") node ≡ true
        → is_oracle ctx.engine ≡ true
        → column_name_of node ≡ some col
        → is_present (get (codes "table") node) ≡ true
        → has oracle_sequence_pseudo_columns col ≡ false
    pub no_denied :
        (name : Text)
        → is_call node ≡ true
        → called number_text node ≡ some name
        → IsAllowedName ctx name

  call_violation-none :
      (node : Fields)
      → (call_violation number_text ctx node ≡ none) ↔ (
          is_call node ≡ true
          → (name : Text) → called number_text node ≡ some name
          → is_denied ctx name ≡ false)
  unfolding call_violation
  call_violation-none node =
      let outer = refusal_none (is_call node) (elim (called number_text node) [
        | some name ↦
            if is_denied ctx name then some (function_denied (last_segment name)) else none
        | none ↦ none
      ]) in
      let inner =
        reading_none (called number_text node) (is_denied ctx)
          (λ n. function_denied (last_segment n)) in
      (λ h e. inner.0 (outer.0 h e), λ h. outer.1 (λ e. inner.1 (h e)))

  pub node_violation-IsReadOnlyNode :
      (node : Fields) → node_violation number_text ctx node ≡ none → IsReadOnlyNode node
  unfolding node_violation
  node_violation-IsReadOnlyNode node h =
      let (a, h₁) = <|>_none (type_violation node) _ h in
      let (b, h₂) = <|>_none (into_violation node) _ h₁ in
      let (c, h₃) = <|>_none (file_violation node) _ h₂ in
      let (d, e) = <|>_none (sequence_violation ctx.engine node) _ h₃ in
      record {
        no_write = (type_violation-none node).0 a;
        no_into = (into_violation-none node).0 b;
        no_file = (file_violation-none node).0 c;
        no_sequence = λ col t o n present.
            let k : (is_type (codes "column_ref") node && is_oracle ctx.engine) ≡ true =
              rw (t, o) refl in
            let r = (sequence_violation-none ctx.engine node).0 d k col n in rw present at r;
        no_denied = λ name t n.
            (is_denied-IsAllowedName ctx name).0 ((call_violation-none node).0 e t name n);
      }

  pub IsReadOnlyNode-node_violation :
      (node : Fields) → IsReadOnlyNode node → node_violation number_text ctx node ≡ none
  unfolding node_violation
  IsReadOnlyNode-node_violation node r =
      <|>_none_intro ((type_violation-none node).1 (r.no_write)) (
        <|>_none_intro ((into_violation-none node).1 (r.no_into)) (
          <|>_none_intro ((file_violation-none node).1 (r.no_file)) (
            <|>_none_intro
              ((sequence_violation-none ctx.engine node).1 (λ k col n.
                elim (Bool-cases (is_present (get (codes "table") node))) [
                  | inl present ↦
                      rw present (r.no_sequence col (&&_true _ _ k).0 (&&_true _ _ k).1 n present)
                  | inr absent ↦ rw absent refl
                ]))
              ((call_violation-none node).1
                (λ t name n. (is_denied-IsAllowedName ctx name).1 (r.no_denied name t n))))))
