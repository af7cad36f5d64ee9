-- ===== src/History/Page.antt =====
-- What a page shows: the entries of a connection and user, or those of a connection, the newest first.
use ask_sql.Prelude.{
  ℕ, zero, suc, ◌≤◌, true, false, Option, none, some, List, [], ◌∷◌, ◌++◌, Text, length,
  length-take, length-drop, take, drop, All, ltb, ◌==◌, includes, Bool-cases, Member, at_head,
  further, ||_false, ◌≡◌, ◌⊎◌, refl, sym, ap, inl, inr, arith,
}
use mathlib.Core.Path
use ask_sql.History.{
  HistoryEntry, Buckets, key, key_of, or_empty, bucket, entries, ℤ, pos, negsuc, limit_of,
  offset_of, text_lt, insert, sort, all_of, rows, list_page,
}
use ask_sql.History.Scope.{Reachable, entries-IsScoped}

-- A key determines its two ids, where the first holds no zero.
pub key_split :
    (a c b d : Text)
    → includes 0 a ≡ false
    → includes 0 c ≡ false
    → a ++ 0 ∷ b ≡ c ++ 0 ∷ d
    → (a ≡ c) × (b ≡ d)
unfolding includes
key_split [] [] b d h k e = (refl, cc)
key_split [] (y ∷ c) b d h k e =
    let p : 0 ≡ y = cc in
    let q : (y == 0) ≡ false = (||_false (y == 0) _ k).0 in absurd (ground arith)
key_split (x ∷ a) [] b d h k e =
    let p : x ≡ 0 = cc in
    let q : (x == 0) ≡ false = (||_false (x == 0) _ h).0 in absurd (ground arith)
key_split (x ∷ a) (y ∷ c) b d h k e =
    let p : x ≡ y = cc in
    let q : a ++ 0 ∷ b ≡ c ++ 0 ∷ d = cc in
    let (r, s) = key_split a c b d (||_false (x == 0) _ h).1 (||_false (y == 0) _ k).1 q in
    (rw (p, r) refl, s)

Member-take :
    {e : HistoryEntry} (n : ℕ) (es : List HistoryEntry) → Member e (take n es) → Member e es
Member-take zero es m = elim m [ ]
Member-take (suc n) [] m = elim m [ ]
Member-take (suc n) (d ∷ es) (at_head p) = at_head p
Member-take (suc n) (d ∷ es) (further m) = further (Member-take n es m)

Member-drop :
    {e : HistoryEntry} (n : ℕ) (es : List HistoryEntry) → Member e (drop n es) → Member e es
Member-drop zero es m = m
Member-drop (suc n) [] m = elim m [ ]
Member-drop (suc n) (d ∷ es) m = further (Member-drop n es m)

All-Member :
    (P : HistoryEntry → Type 0) {e : HistoryEntry} (es : List HistoryEntry)
    → All P es
    → Member e es
    → P e
All-Member P [] h m = elim m [ ]
All-Member P (d ∷ es) h (at_head {w} p) = Path.subst P p h.0
All-Member P (d ∷ es) h (further m) = All-Member P es h.1 m

-- The user that an entry is kept for is the one given, or none where the empty text is given.
or_empty-cases :
    (o : Option Text) (user : Text)
    → or_empty o ≡ user
    → (o ≡ some user) ⊎ ((user ≡ []) × (o ≡ none))
or_empty-cases none user h = inr (sym h, refl)
or_empty-cases (some u) user h = inl (ap some h)

-- In every store that additions lead to, an entry of a page that is asked for with a user is one of
-- that connection and that user, or the user asked for is the empty text and the entry has none; no
-- connection id holds a zero code unit.
pub list_page-Member :
    {cap : ℕ} {bs : Buckets} {e : HistoryEntry} (connection_id user : Text)
    (limit offset : Option ℤ)
    → Reachable cap bs
    → includes 0 connection_id ≡ false
    → includes 0 e.connection_id ≡ false
    → Member e (list_page connection_id limit offset (some user) bs).items
    → (e.connection_id ≡ connection_id)
      × ((e.user_id ≡ some user) ⊎ ((user ≡ []) × (e.user_id ≡ none)))
unfolding list_page rows key
list_page-Member {bs} {e} connection_id user limit offset r h k m =
    let scope = key connection_id (some user) in
    let all = (entries-IsScoped scope r).1 in
    let there =
      Member-drop (offset_of offset) (entries (bucket scope bs))
        (Member-take (limit_of limit) _ m) in
    let same : key_of e ≡ scope =
      All-Member (λ d. key_of d ≡ scope) (entries (bucket scope bs)) all there in
    let (connection, kept_for) =
      key_split e.connection_id connection_id (or_empty e.user_id) user k h same in
    (connection, or_empty-cases e.user_id user kept_for)

limit_of-bound : (limit : Option ℤ) → limit_of limit ≤ 200
limit_of-bound none = omega arith
limit_of-bound (some (pos n)) = omega arith
limit_of-bound (some (negsuc n)) = omega arith

-- The newest first: no entry is older than the next one.
abbrev pub IsNewestFirst : List HistoryEntry → Type 0
IsNewestFirst [] = Unit
IsNewestFirst (e ∷ []) = Unit
IsNewestFirst (e ∷ d ∷ es) = (text_lt e.at d.at ≡ false) × IsNewestFirst (d ∷ es)

text_lt_asym : (a b : Text) → text_lt a b ≡ true → text_lt b a ≡ false
unfolding text_lt
text_lt_asym a [] h = cc
text_lt_asym [] (d ∷ t) h = refl
text_lt_asym (c ∷ s) (d ∷ t) h = elim (Bool-cases (c == d)) [
  | inl e ↦
      let h' : text_lt s t ≡ true = rw (e, text_lt) at h in
      let rest = text_lt_asym s t h' in
      let back : (d == c) ≡ true = ground arith in rw (back, text_lt) rest
  | inr e ↦
      let h' : ltb c d ≡ true = rw (e, text_lt) at h in
      let back : (d == c) ≡ false = ground arith in rw (back, text_lt) (ground arith)
]

insert-IsNewestFirst :
    (e : HistoryEntry) (es : List HistoryEntry) → IsNewestFirst es → IsNewestFirst (insert e es)
unfolding insert
insert-IsNewestFirst e [] h = tt
insert-IsNewestFirst e (d ∷ []) h = elim (Bool-cases (text_lt e.at d.at)) [
  | inl older ↦ rw (older, insert) (text_lt_asym e.at d.at older, tt)
  | inr newer ↦ rw (newer, insert) (newer, tt)
]
insert-IsNewestFirst e (d ∷ c ∷ es) h = elim (Bool-cases (text_lt e.at d.at)) [
  | inr newer ↦ rw (newer, insert) (newer, h)
  | inl older ↦
      let rest = insert-IsNewestFirst e (c ∷ es) h.1 in
      elim (Bool-cases (text_lt e.at c.at)) [
        | inl f ↦
            let rest' : IsNewestFirst (c ∷ insert e es) = rw (f, insert) at rest in
            rw (older, f, insert) (h.0, rest')
        | inr f ↦
            let rest' : IsNewestFirst (e ∷ c ∷ es) = rw (f, insert) at rest in
            rw (older, f, insert) (text_lt_asym e.at d.at older, rest')
      ]
]

sort-IsNewestFirst : (es : List HistoryEntry) → IsNewestFirst (sort es)
unfolding sort
sort-IsNewestFirst [] = tt
sort-IsNewestFirst (e ∷ es) = insert-IsNewestFirst e (sort es) (sort-IsNewestFirst es)

-- Without a user the rows of a connection come the newest first; and any page holds at most 200
-- entries and no more than the total.
pub rows-IsNewestFirst :
    (connection_id : Text) (limit offset : Option ℤ) (user_id : Option Text) (bs : Buckets)
    → IsNewestFirst (rows connection_id none bs)
      × (length (list_page connection_id limit offset user_id bs).items ≤ 200)
      × (length (list_page connection_id limit offset user_id bs).items
          ≤ (list_page connection_id limit offset user_id bs).total)
unfolding list_page rows
rows-IsNewestFirst connection_id limit offset user_id bs =
    let shown = drop (offset_of offset) (rows connection_id user_id bs) in
    let taken = length-take (limit_of limit) shown in
    let left = length-drop (offset_of offset) (rows connection_id user_id bs) in
    (
      sort-IsNewestFirst (all_of connection_id bs),
      omega (arith, taken, limit_of-bound limit),
      omega (arith, taken, left),
    )
