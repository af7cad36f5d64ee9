-- ===== src/Mongo/Cap/Ends.antt =====
-- The last stage of a pipeline, and what closing a pipeline does to it.
use ask_sql.Prelude.{
  ℕ, true, false, some, text_eq, Bool-cases, Option-cases, ◌≡◌, refl, ◌⊎◌, inl, inr, arith,
}
use ask_sql.Json.{Num, whole, Json, Items, nil, cons, exceeds, In, head, tail}
use ask_sql.Mongo.Cap.{last, limit_of, limit_decision, Flags, limit_stage, push, set_last, close}

-- The pipeline ends in a `$limit` that is a number, and no higher than the cap.
pub record EndsCapped (max_rows : ℕ) (pipeline : Items) : Type 0 where
  pub stage : Json
  pub count : Num
  pub ends : last pipeline ≡ some stage
  pub limits : limit_of stage ≡ some count
  pub within : exceeds count max_rows ≡ false

pub last-push : (xs : Items) (stage : Json) → last (push xs stage) ≡ some stage
unfolding last push
last-push nil stage = refl
last-push (cons x nil) stage = refl
last-push (cons x (cons y ys)) stage = last-push (cons y ys) stage

pub last-set_last :
    (xs : Items) (stage : Json) {x : Json}
    → last xs ≡ some x
    → last (set_last xs stage) ≡ some stage
unfolding last set_last
last-set_last nil stage h = cc
last-set_last (cons x nil) stage h = refl
last-set_last (cons x (cons y nil)) stage h = refl
last-set_last (cons x (cons y (cons z zs))) stage h = last-set_last (cons y (cons z zs)) stage h

pub limit_of-limit_stage : (max_rows : ℕ) → limit_of (limit_stage max_rows) ≡ some (whole max_rows)
unfolding limit_of text_eq
limit_of-limit_stage max_rows = refl

pub exceeds-whole_self : (n : ℕ) → exceeds (whole n) n ≡ false
unfolding exceeds
exceeds-whole_self n = ground arith

-- The three ways in which a pipeline is closed.
pub data Closed (max_rows : ℕ) (p : Items) (f : Flags) : Items × Flags → Type 0 where
  pushed :
      {r : Items × Flags}
      → r ≡ (
        push p (limit_stage max_rows),
        record { auto_limited = true; lowered_limit = f.lowered_limit },
      )
      → Closed max_rows p f r
  lowered :
      {r : Items × Flags} {stage : Json}
      → last p ≡ some stage
      → r ≡ (
        set_last p (limit_stage max_rows),
        record { auto_limited = f.auto_limited; lowered_limit = true },
      )
      → Closed max_rows p f r
  kept : {r : Items × Flags} → EndsCapped max_rows p → r ≡ (p, f) → Closed max_rows p f r

pub close-Closed :
    (max_rows : ℕ) (p : Items) (f : Flags) → Closed max_rows p f (close max_rows (p, f))
unfolding close limit_decision
close-Closed max_rows p f = elim (Option-cases (last p)) [
  | inl e ↦ pushed (rw (e, close, limit_decision))
  | inr (stage, e) ↦ elim (Option-cases (limit_of stage)) [
    | inl l ↦ pushed (rw (e, l, close, limit_decision))
    | inr (n, l) ↦ elim (Bool-cases (exceeds n max_rows)) [
      | inl x ↦ lowered e (rw (e, l, x, close, limit_decision))
      | inr x ↦
          kept (record { stage = stage; count = n; ends = e; limits = l; within = x })
            (rw (e, l, x, close, limit_decision))
    ]
  ]
]

pub close-EndsCapped :
    (max_rows : ℕ) (p : Items) (f : Flags) → EndsCapped max_rows (close max_rows (p, f)).0
close-EndsCapped max_rows p f = ends (close-Closed max_rows p f)
  where
    capped : (q : Items) → last q ≡ some (limit_stage max_rows) → EndsCapped max_rows q
    capped q e = record {
      stage = limit_stage max_rows;
      count = whole max_rows;
      ends = e;
      limits = limit_of-limit_stage max_rows;
      within = exceeds-whole_self max_rows;
    }

    ends : {r : Items × Flags} → Closed max_rows p f r → EndsCapped max_rows r.0
    ends (pushed e) = rw e (capped _ (last-push p (limit_stage max_rows)))
    ends (lowered l e) = rw e (capped _ (last-set_last p (limit_stage max_rows) l))
    ends (kept c e) = rw e c

-- A pipeline that ends capped is closed as it is.
pub EndsCapped-close :
    (max_rows : ℕ) (p : Items) (f : Flags) → EndsCapped max_rows p → close max_rows (p, f) ≡ (p, f)
unfolding close limit_decision
EndsCapped-close max_rows p f c = rw (c.ends, c.limits, c.within, close, limit_decision)

In-push : {x stage : Json} (p : Items) → In x (push p stage) → (x ≡ stage) ⊎ In x p
unfolding push
In-push nil head = inl refl
In-push nil (tail i) = elim i [ ]
In-push (cons y ys) head = inr head
In-push (cons y ys) (tail i) = elim (In-push ys i) [ inl e ↦ inl e | inr j ↦ inr (tail j) ]

In-set_last : {x stage : Json} (p : Items) → In x (set_last p stage) → (x ≡ stage) ⊎ In x p
unfolding set_last
In-set_last nil i = elim i [ ]
In-set_last (cons y nil) head = inl refl
In-set_last (cons y nil) (tail i) = elim i [ ]
In-set_last (cons y (cons z zs)) head = inr head
In-set_last (cons y (cons z zs)) (tail i) = elim (In-set_last (cons z zs) i) [
  | inl e ↦ inl e
  | inr j ↦ inr (tail j)
]

-- Closing brings in no stage but the limit.
pub In-close :
    (max_rows : ℕ) (p : Items) (f : Flags) {x : Json}
    → In x (close max_rows (p, f)).0
    → (x ≡ limit_stage max_rows) ⊎ In x p
In-close max_rows p f {x} i = from (close-Closed max_rows p f) i
  where
    from :
        {r : Items × Flags} → Closed max_rows p f r → In x r.0 → (x ≡ limit_stage max_rows) ⊎ In x p
    from (pushed e) j = In-push p (rw e at j)
    from (lowered _ e) j = In-set_last p (rw e at j)
    from (kept _ e) j = inr (rw e at j)
