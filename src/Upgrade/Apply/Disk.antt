-- ===== src/Upgrade/Apply/Disk.antt =====
-- src/upgrade/apply.rs: the disk at each point of an installation, and what a call that fails leaves.
use bilbycast_gateway_sdk.Base.{
  String, Bool, true, false, Option, none, some, List, [], ◌∷◌, ◌≡◌, sym, ap, subst, ◌⊎◌, inl, inr,
  arith, Bool-cases, str_eq, eq_iff, ok, err, err≢ok,
}
use bilbycast_gateway_sdk.Upgrade.Manifest.{any_is}
use bilbycast_gateway_sdk.Upgrade.Apply.Garbage.{Others}
use bilbycast_gateway_sdk.Upgrade.Apply.{
  Root, ApplyError, Outcome, step, is_link_to, partial_of, without, without_all,
}

-- What the link names is there.
abbrev pub Present : Option String → List String → Type 0
Present none dirs = Unit
Present (some v) dirs = any_is dirs v ≡ true

-- The link is still the old one or already the new one, and is no dangling link; after a success it is
-- the new one.
pub record Kept (old : Option String) (version : String) (o : Outcome) : Type 0 where
  pub present : Present o.0.current o.0.dirs
  pub either : (o.0.current ≡ old) ⊎ (o.0.current ≡ some version)
  pub done : o.1 ≡ ok tt → o.0.current ≡ some version

str_eq-flip : (v w : String) → str_eq v w ≡ false → str_eq w v ≡ false
str_eq-flip v w h = elim (Bool-cases (str_eq w v)) [
  | inr e ↦ e
  | inl e ↦ absurd (ground (arith, h, (eq_iff v w).1 (sym ((eq_iff w v).0 e))))
]

any_is-without :
    (v w : String) (dirs : List String)
    → str_eq v w ≡ false
    → any_is dirs w ≡ true
    → any_is (without v dirs) w ≡ true
any_is-without v w [] ne h = h
any_is-without v w (d ∷ dirs) ne h = elim (Bool-cases (str_eq d v)) [
  | inl e ↦
      let other : str_eq d w ≡ false =
        subst (λ x. str_eq x w ≡ false) (sym ((eq_iff d v).0 e)) ne in
      rw e (any_is-without v w dirs ne (ground (arith, other, h)))
  | inr e ↦ elim (Bool-cases (str_eq d w)) [
    | inl e' ↦ rw e (ground (arith, e'))
    | inr e' ↦ rw e (ground (arith, e', any_is-without v w dirs ne (ground (arith, e', h))))
  ]
]

pub Present-without :
    (old : Option String) (v : String) (dirs : List String)
    → is_link_to old v ≡ false
    → Present old dirs
    → Present old (without v dirs)
Present-without none v dirs ne h = tt
Present-without (some w) v dirs ne h = any_is-without v w dirs (str_eq-flip w v ne) h

pub Present-cons :
    (old : Option String) (d : String) (dirs : List String)
    → Present old dirs
    → Present old (d ∷ dirs)
Present-cons none d dirs h = tt
Present-cons (some w) d dirs h = ground (arith, h)

-- The old link is no leftover of an installation of this version.
abbrev pub Apart : Option String → String → Type 0
Apart old version = is_link_to old (partial_of version) ≡ false

-- The disk before the link is touched.
pub record Before (old : Option String) (r : Root) : Type 0 where
  pub current : r.current ≡ old
  pub present : Present old r.dirs

pub record Ready (old : Option String) (version : String) (r : Root) : Type 0 where
  pub before : Before old r
  pub new : any_is r.dirs version ≡ true

module _ (old : Option String) (version : String) where
  pub stopped-Kept : (r : Root) (e : ApplyError) → Before old r → Kept old version (r, err e)
  stopped-Kept r e b = record {
    present = subst (λ c. Present c r.dirs) (sym b.current) b.present;
    either = inl b.current;
    done = λ h. absurd (err≢ok h);
  }

  pub step-Kept :
      (P : Root → Type 0) (failed : Bool) (e : ApplyError) (change : Root → Root)
      (k : Root → Outcome) (r : Root)
      → Before old r
      → P (change r)
      → ((d : Root) → P d → Kept old version (k d))
      → Kept old version (step failed e change k r)
  unfolding step
  step-Kept P true e change k r b p go_on = stopped-Kept r e b
  step-Kept P false e change k r b p go_on = go_on (change r) p

  -- The link names the new version, which is there.
  pub record Linked (r : Root) : Type 0 where
    pub current : r.current ≡ some version
    pub new : any_is r.dirs version ≡ true

pub is_link_to→eq :
    (c : Option String) (version : String) → is_link_to c version ≡ true → c ≡ some version
is_link_to→eq none version h = absurd (ground (arith, h))
is_link_to→eq (some v) version h = ap some ((eq_iff v version).0 h)

pub any_is-without_all :
    (version : String) (names dirs : List String)
    → Others version names
    → any_is dirs version ≡ true
    → any_is (without_all names dirs) version ≡ true
any_is-without_all version [] dirs o h = h
any_is-without_all version (n ∷ names) dirs o h =
    any_is-without_all version names (without n dirs) o.1 (any_is-without n version dirs o.0 h)
