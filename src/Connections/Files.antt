-- ===== src/Connections/Files.antt =====
-- packages/server/src/dynamicConnections.ts: where a database file may lie.
use ask_sql.Prelude.{
  ℕ, zero, suc, ◌<◌, Bool, true, not, ◌&&◌, ◌||◌, Option, none, some, List, [], ◌∷◌, ◌++◌, Text,
  length, text_eq, text_eq_iff, if◌then◌else◌, starts_with, ends_with, Bool-cases, Option-cases,
  ◌≡◌, ◌≢◌, inl, inr, arith,
}

-- Node's calls of the file system and of its paths; `real_path` is none where `realpathSync` throws.
pub record FileSystem : Type 0 where
  pub real_path : Text → Option Text
  pub resolve_path : Text → Text
  pub dirname : Text → Text
  pub basename : Text → Text
  pub join : Text → Text → Text
  pub separator : Text

-- The recursion on the parents, which are shorter and shorter, with the fuel for all of them.
unfoldable pub real_path_from : ℕ → FileSystem → Text → Text
real_path_from zero fs target = target
real_path_from (suc fuel) fs target = elim (fs.real_path target) [
  | some found ↦ found
  | none ↦
      let parent = fs.dirname target in
      let above = real_path_from fuel fs parent in
      if text_eq parent target then target else fs.join above (fs.basename target)
]

abbrev pub real_path_or : FileSystem → Text → Text
real_path_or fs target = real_path_from (suc (length target)) fs target

-- `base.endsWith(sep) ? base : base + sep`
abbrev pub as_folder : Text → Text → Text
as_folder sep base = if ends_with sep base then base else base ++ sep

abbrev pub is_inside : Text → Text → Text → Bool
is_inside sep base path = text_eq path base || starts_with (as_folder sep base) path

unfoldable pub outside_roots : FileSystem → List Text → Text → Bool
outside_roots fs [] file = true
outside_roots fs (root ∷ roots) file =
    not (
      is_inside fs.separator (real_path_or fs (fs.resolve_path root))
        (real_path_or fs (fs.resolve_path file)))
    && outside_roots fs roots file

-- The path that the recursion of the source finds, without a bound on its depth.
pub data Resolves (fs : FileSystem) : Text → Text → Type 0 where
  real : {target path : Text} → fs.real_path target ≡ some path → Resolves fs target path
  root_missing :
      {target : Text}
      → fs.real_path target ≡ none
      → fs.dirname target ≡ target
      → Resolves fs target target
  below_parent :
      {target above : Text}
      → fs.real_path target ≡ none
      → fs.dirname target ≢ target
      → Resolves fs (fs.dirname target) above
      → Resolves fs target (fs.join above (fs.basename target))

real_path_from-Resolves :
    (fs : FileSystem)
    → ((t : Text) → fs.dirname t ≢ t → length (fs.dirname t) < length t)
    → (fuel : ℕ) (target : Text) → length target < fuel
    → Resolves fs target (real_path_from fuel fs target)
unfolding real_path_from
real_path_from-Resolves fs shorter zero target enough = absurd (omega arith)
real_path_from-Resolves fs shorter (suc fuel) target enough =
    elim (Option-cases (fs.real_path target)) [
      | inr (path, e) ↦ rw (e, real_path_from) (real e)
      | inl e ↦ elim (Bool-cases (text_eq (fs.dirname target) target)) [
        | inl same ↦
            rw (e, same, real_path_from)
              (root_missing e ((text_eq_iff (fs.dirname target) target).0 same))
        | inr other ↦
            let n : fs.dirname target ≢ target =
              λ p. let q = (text_eq_iff (fs.dirname target) target).1 p in cc in
            let less = shorter target n in
            let above : length (fs.dirname target) < fuel = omega arith in
            rw (e, other, real_path_from)
              (below_parent e n (real_path_from-Resolves fs shorter fuel (fs.dirname target) above))
      ]
    ]

-- Where the parent of a path is the path itself or shorter, the walk through the parents ends, and
-- finds the real path of the nearest ancestor that has one, with the names below it appended.
pub real_path_or-Resolves :
    (fs : FileSystem) (target : Text)
    → ((t : Text) → fs.dirname t ≢ t → length (fs.dirname t) < length t)
    → Resolves fs target (real_path_or fs target)
real_path_or-Resolves fs target shorter =
    real_path_from-Resolves fs shorter (suc (length target)) target (omega arith)
