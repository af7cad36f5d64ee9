-- ===== src/Mongo/Cap/Idempotent.antt =====
-- Capping what is already capped changes nothing and raises no flag.
use ask_sql.Prelude.{ℕ, true, false, Text, codes, text_eq, Bool-cases, inl, inr, ◌≡◌, refl, arith}
use ask_sql.Json.{Json, arr, obj, null, bool, num, str, Items, nil, cons, Fields, end, field}
use ask_sql.Mongo.Cap.{
  Flags, unflagged, limit_stage, push, set_last, close, cap_stages, cap_stage, cap_facet,
  cap_facet_value, cap_branches, cap_branch, cap_pipeline,
}
use ask_sql.Mongo.Cap.Ends.{
  close-EndsCapped, EndsCapped-close, Closed, pushed, lowered, kept, close-Closed,
}

-- The loop over the stages leaves this pipeline as it is.
abbrev Still : ℕ → Items → Type 0
Still m p = cap_stages m p ≡ (p, unflagged)

cap_limit_stage : (m : ℕ) → cap_stage m (limit_stage m) ≡ (limit_stage m, unflagged)
unfolding cap_stages text_eq
cap_limit_stage m = refl

Still-cons :
    (m : ℕ) (x : Json) (p : Items) → cap_stage m x ≡ (x, unflagged) → Still m p → Still m (cons x p)
unfolding cap_stages
Still-cons m x p e h = rw (e, h, cap_stages)

Still-inv :
    (m : ℕ) (x : Json) (p : Items)
    → Still m (cons x p)
    → (cap_stage m x ≡ (x, unflagged)) × Still m p
unfolding cap_stages
Still-inv m x p h = ground arith

Still-push : (m : ℕ) (p : Items) → Still m p → Still m (push p (limit_stage m))
unfolding push
Still-push m nil h = Still-cons m _ _ (cap_limit_stage m) h
Still-push m (cons x xs) h =
    let (a, b) = Still-inv m x xs h in Still-cons m x _ a (Still-push m xs b)

Still-set_last : (m : ℕ) (p : Items) → Still m p → Still m (set_last p (limit_stage m))
unfolding set_last
Still-set_last m nil h = h
Still-set_last m (cons x nil) h = Still-cons m _ _ (cap_limit_stage m) (Still-inv m x nil h).1
Still-set_last m (cons x (cons y ys)) h =
    let (a, b) = Still-inv m x (cons y ys) h in Still-cons m x _ a (Still-set_last m (cons y ys) b)

Still-close : (m : ℕ) (p : Items) (f : Flags) → Still m p → Still m (close m (p, f)).0
Still-close m p f h = from (close-Closed m p f)
  where
    from : {r : Items × Flags} → Closed m p f r → Still m r.0
    from (pushed e) = rw e (Still-push m p h)
    from (lowered _ e) = rw e (Still-set_last m p h)
    from (kept _ e) = rw e h

-- A pipeline that was closed after a quiet loop is capped as it is.
close-cap :
    (m : ℕ) (p : Items) (f : Flags)
    → Still m p
    → close m (cap_stages m (close m (p, f)).0) ≡ ((close m (p, f)).0, unflagged)
close-cap m p f h =
    rw (Still-close m p f h)
      (EndsCapped-close m (close m (p, f)).0 unflagged (close-EndsCapped m p f))

cap_facet-hit :
    (m : ℕ) (k : Text) (v : Json) (fs : Fields)
    → text_eq (codes "$facet") k ≡ true
    → cap_facet m (field k v fs) ≡ (field k (cap_facet_value m v).0 fs, (cap_facet_value m v).1)
unfolding cap_stages
cap_facet-hit m k v fs e = rw e

cap_facet-miss :
    (m : ℕ) (k : Text) (v : Json) (fs : Fields)
    → text_eq (codes "$facet") k ≡ false
    → cap_facet m (field k v fs) ≡ (field k v (cap_facet m fs).0, (cap_facet m fs).1)
unfolding cap_stages
cap_facet-miss m k v fs e = rw e

idem_field :
    (m : ℕ) (k : Text) (v : Json) (fs : Fields)
    → cap_facet_value m (cap_facet_value m v).0 ≡ ((cap_facet_value m v).0, unflagged)
    → cap_facet m (cap_facet m fs).0 ≡ ((cap_facet m fs).0, unflagged)
    → cap_facet m (cap_facet m (field k v fs)).0 ≡ ((cap_facet m (field k v fs)).0, unflagged)
idem_field m k v fs hv hf = elim (Bool-cases (text_eq (codes "$facet") k)) [
  | inl e ↦
      rw (cap_facet-hit m k v fs e) (rw (cap_facet-hit m k (cap_facet_value m v).0 fs e) (rw hv))
  | inr e ↦ rw (cap_facet-miss m k v fs e) (rw (cap_facet-miss m k v (cap_facet m fs).0 e) (rw hf))
]

mutual
  unfolding cap_stages

  idem_stages : (m : ℕ) (p : Items) → Still m (cap_stages m p).0
  idem_stages m nil = refl
  idem_stages m (cons x xs) = rw (idem_stage m x, idem_stages m xs)

  idem_stage : (m : ℕ) (x : Json) → cap_stage m (cap_stage m x).0 ≡ ((cap_stage m x).0, unflagged)
  idem_stage m (obj fs) = rw (idem_facet m fs)
  idem_stage m (arr xs) = refl
  idem_stage m null = refl
  idem_stage m (bool b) = refl
  idem_stage m (num n) = refl
  idem_stage m (str s) = refl

  idem_facet :
      (m : ℕ) (fs : Fields) → cap_facet m (cap_facet m fs).0 ≡ ((cap_facet m fs).0, unflagged)
  idem_facet m end = refl
  idem_facet m (field k v fs) = idem_field m k v fs (idem_facet_value m v) (idem_facet m fs)

  idem_facet_value :
      (m : ℕ) (x : Json)
      → cap_facet_value m (cap_facet_value m x).0 ≡ ((cap_facet_value m x).0, unflagged)
  idem_facet_value m (obj fs) = rw (idem_branches m fs)
  idem_facet_value m (arr xs) = refl
  idem_facet_value m null = refl
  idem_facet_value m (bool b) = refl
  idem_facet_value m (num n) = refl
  idem_facet_value m (str s) = refl

  idem_branches :
      (m : ℕ) (fs : Fields)
      → cap_branches m (cap_branches m fs).0 ≡ ((cap_branches m fs).0, unflagged)
  idem_branches m end = refl
  idem_branches m (field k v fs) = rw (idem_branch m v, idem_branches m fs)

  idem_branch :
      (m : ℕ) (x : Json) → cap_branch m (cap_branch m x).0 ≡ ((cap_branch m x).0, unflagged)
  idem_branch m (arr xs) =
      rw (close-cap m (cap_stages m xs).0 (cap_stages m xs).1 (idem_stages m xs))
  idem_branch m (obj fs) = refl
  idem_branch m null = refl
  idem_branch m (bool b) = refl
  idem_branch m (num n) = refl
  idem_branch m (str s) = refl

-- Capping a capped pipeline again, with the same cap, changes nothing and raises no flag.
pub cap_pipeline_idem :
    (m : ℕ) (p : Items) → cap_pipeline m (cap_pipeline m p).0 ≡ ((cap_pipeline m p).0, unflagged)
unfolding cap_pipeline
cap_pipeline_idem m p = close-cap m (cap_stages m p).0 (cap_stages m p).1 (idem_stages m p)
