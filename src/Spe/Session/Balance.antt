-- ===== src/Spe/Session/Balance.antt =====
-- The files and threads of a profile over its calls.
use kumf.Base.{
  ℕ, ◌+◌, ◌≡◌, refl, Bool, true, false, Option, none, some, List, [], ◌∷◌, ◌++◌, arith, Bool-cases,
  if_cases, ap, sym, ◌∙◌, inl, inr,
}
use kumf.Spe.Session.{
  Profile, fresh, spe_profile_start, spe_profile_stop, skipped, kumf_init, kumf_fini, Call, start,
  stop, run_calls,
}

-- The file that is open, if one is.
abbrev pub open_files : Option ℕ → List ℕ
open_files none = []
open_files (some file) = file ∷ []

abbrev pub running : Bool → ℕ
running true = 1
running false = 0

abbrev pub is_open : Option ℕ → Bool
is_open none = false
is_open (some file) = true

pub record IsBalanced (p : Profile) : Type 0 where
  pub active : is_open p.output_file ≡ p.profiling_active
  pub files : p.opened ≡ p.closed ++ open_files p.output_file
  pub threads : p.created ≡ p.joined + running p.profiling_active

-- At rest: all that was opened is closed, in its order.
abbrev pub AtRest : Profile → Type 0
AtRest p =
    (p.profiling_active ≡ false)
    × (p.output_file ≡ none)
    × (p.opened ≡ p.closed)
    × (p.created ≡ p.joined)

not_open : (o : Option ℕ) → is_open o ≡ false → o ≡ none
not_open none shut = refl
not_open (some file) shut = absurd (cc)

some_open : (o : Option ℕ) → is_open o ≡ true → (file : ℕ) × (o ≡ some file)
some_open none shut = absurd (cc)
some_open (some file) shut = (file, refl)

append_none : (xs : List ℕ) → xs ++ [] ≡ xs
append_none [] = refl
append_none (x ∷ xs) = ap (λ ys. x ∷ ys) (append_none xs)

-- An inactive profile that is balanced is at rest.
IsBalanced-AtRest : (p : Profile) → IsBalanced p → p.profiling_active ≡ false → AtRest p
IsBalanced-AtRest p h off =
    let shut = not_open p.output_file (rw off at h.active) in
    (
      off,
      shut,
      h.files ∙ rw shut (append_none p.closed),
      let threads = rw off at h.threads in omega arith,
    )

AtRest-IsBalanced : (p : Profile) → AtRest p → IsBalanced p
AtRest-IsBalanced p (off, shut, files, threads) = record {
  active = rw (shut, off) refl;
  files = rw shut (files ∙ sym (append_none p.closed));
  threads = rw off (omega arith);
}

spe_profile_start-IsBalanced :
    (file : Option ℕ) (p : Profile) → IsBalanced p → IsBalanced (spe_profile_start file p)
unfolding spe_profile_start
spe_profile_start-IsBalanced none p h =
    if_cases IsBalanced p.profiling_active (λ on. h)
      (λ off.
        let rest = IsBalanced-AtRest p h off in
        AtRest-IsBalanced (record p { output_file = none }) (off, refl, rest.2, rest.3))
spe_profile_start-IsBalanced (some file) p h =
    if_cases IsBalanced p.profiling_active (λ on. h)
      (λ off.
        let rest = IsBalanced-AtRest p h off in
        let new : Profile = record p {
          output_file = some file;
          opened = p.opened ++ file ∷ [];
          profiling_active = true;
          created = p.created + 1;
        } in
        let balanced : IsBalanced new = record {
          active = refl;
          files = ap (λ xs. xs ++ file ∷ []) rest.2;
          threads = let same = rest.3 in omega arith;
        } in
        balanced)

spe_profile_stop-AtRest : (p : Profile) → IsBalanced p → AtRest (spe_profile_stop p)
unfolding spe_profile_stop
spe_profile_stop-AtRest p h =
    if_cases AtRest p.profiling_active
      (λ on.
        let (file, shown) = some_open p.output_file (h.active ∙ on) in
        rw shown (refl, refl, rw shown at h.files, let threads = rw on at h.threads in omega arith))
      (λ off. IsBalanced-AtRest p h off)

-- Any sequence of calls keeps the balance.
pub run_calls-IsBalanced :
    (calls : List Call) (p : Profile) → IsBalanced p → IsBalanced (run_calls calls p)
unfolding run_calls
run_calls-IsBalanced [] p h = h
run_calls-IsBalanced (start file ∷ calls) p h =
    run_calls-IsBalanced calls _ (spe_profile_start-IsBalanced file p h)
run_calls-IsBalanced (stop ∷ calls) p h =
    run_calls-IsBalanced calls _ (AtRest-IsBalanced _ (spe_profile_stop-AtRest p h))

fresh-IsBalanced : IsBalanced fresh
fresh-IsBalanced = record { active = refl; files = refl; threads = refl }

-- Whatever KUMF_SKIP says, whichever files open and whatever calls of start and stop a process
-- makes, when kumf_fini returns the profile is inactive, every file opened was closed, in that
-- order, and every thread created was joined.
pub kumf_fini-AtRest :
    (skip : Option (List ℕ)) (file : Option ℕ) (calls : List Call)
    → AtRest (kumf_fini (run_calls calls (kumf_init skip file fresh)))
unfolding kumf_init kumf_fini
kumf_fini-AtRest skip file calls = elim (Bool-cases (skipped skip)) [
  | inl skips ↦
      rw skips (spe_profile_stop-AtRest _ (run_calls-IsBalanced calls fresh fresh-IsBalanced))
  | inr profiles ↦ rw profiles (
      spe_profile_stop-AtRest _
        (run_calls-IsBalanced calls _ (spe_profile_start-IsBalanced file fresh fresh-IsBalanced)))
]
