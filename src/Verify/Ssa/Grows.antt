-- ===== src/Verify/Ssa/Grows.antt =====
-- The scan only adds: errors stay, and a value that is defined keeps its site.
use astronomy.Prelude.{
  ℕ, ◌<◌, ◌≡◌, refl, ap, [], ◌∷◌, ◌++◌, some, leb, ◌==◌, ==_iff, arith, Option-cases, Bool-cases,
  inl, inr,
}
use astronomy.Ir.Functions.{Instruction, BlockParam, BasicBlock, Param}
use astronomy.Ir.Modules.{Name}
use astronomy.Verify.Errors.{VerifyError, DefSite}
use astronomy.Verify.Loops.{each_from, each_from-keeps, append_nil-parts}
use astronomy.Verify.Ssa.{
  Scan, push, record_site, scan_param, scan_block_param, scan_result, scan_instruction, scan_block,
}

-- From `s` to `t`, errors and definitions only grow; what is reported is not taken back.
pub record Grows (s t : Scan) : Type 0 where
  pub clean : t.errors ≡ [] → s.errors ≡ []
  pub kept :
      t.errors ≡ [] → (v : ℕ) (site : DefSite) → s.defined v ≡ some site → t.defined v ≡ some site

pub Grows-refl : (s : Scan) → Grows s s
Grows-refl s = record { clean = λ h. h; kept = λ h v site e. e }

pub Grows-trans : (s t u : Scan) → Grows s t → Grows t u → Grows s u
Grows-trans s t u p q = record {
  clean = λ h. p.clean (q.clean h);
  kept = λ h v site e. q.kept h v site (p.kept (q.clean h) v site e);
}

Grows-push : (e : VerifyError) (s : Scan) → Grows s (push e s)
Grows-push e s = record {
  clean = λ h. (append_nil-parts s.errors (e ∷ []) h).0;
  kept = λ h v site p. p;
}

-- The state after a site was recorded without an error holds it.
record_site-Grows :
    (name : Name) (value : ℕ) (site : DefSite) (s : Scan) → Grows s (record_site name value site s)
unfolding record_site
record_site-Grows name value site s = elim (Option-cases (s.defined value)) [
  | inr (first, e) ↦ rw (e, record_site) (Grows-push _ s)
  | inl e ↦
      rw (e, record_site)
        (record {
          clean = λ h. h;
          kept = λ h v old p. elim (Bool-cases (value == v)) [
            | inl same ↦
                absurd (let q : value ≡ v = (==_iff value v).0 same in cc (e, p, ap s.defined q))
            | inr other ↦ rw other p
          ];
        })
]

pub recorded :
    (name : Name) (value : ℕ) (site : DefSite) (s : Scan)
    → (record_site name value site s).errors ≡ []
    → (record_site name value site s).defined value ≡ some site
unfolding record_site
recorded name value site s h = elim (Option-cases (s.defined value)) [
  | inr (first, e) ↦ absurd (
      let q : s.errors ++ (_ ∷ []) ≡ [] = rw (e, record_site) at h in
      let z = (append_nil-parts s.errors _ q).1 in cc)
  | inl e ↦ rw (e, record_site) (rw ((==_iff value value).1 refl))
]

pub scan_param-Grows :
    (name : Name) (i : ℕ) (p : Param) (s : Scan) → Grows s (scan_param name i p s)
unfolding scan_param
scan_param-Grows name i p s =
    let site = DefSite.function_param i in
    elim (Bool-cases (p.value == i)) [
      | inl e ↦ rw e (record_site-Grows name p.value site s)
      | inr e ↦
          rw e (Grows-trans s _ _ (Grows-push _ s) (record_site-Grows name p.value site (push _ s)))
    ]

scan_result-Grows :
    (name : Name) (values bi ii result : ℕ) (s : Scan)
    → Grows s (scan_result name values bi ii result s)
unfolding scan_result
scan_result-Grows name values bi ii result s = elim (Bool-cases (leb values result)) [
  | inl e ↦ rw e (Grows-push _ s)
  | inr e ↦ rw e (record_site-Grows name result (DefSite.inst bi ii) s)
]

pub scan_instruction-Grows :
    (name : Name) (values bi ii : ℕ) (inst : Instruction) (s : Scan)
    → Grows s (scan_instruction name values bi ii inst s)
unfolding scan_instruction
scan_instruction-Grows name values bi ii inst s = elim (Option-cases inst.result) [
  | inl e ↦ rw e (Grows-refl s)
  | inr (result, e) ↦ rw e (scan_result-Grows name values bi ii result s)
]

pub scan_block_param-Grows :
    (name : Name) (bi pi : ℕ) (p : BlockParam) (s : Scan)
    → Grows s (scan_block_param name bi pi p s)
unfolding scan_block_param
scan_block_param-Grows name bi pi p s = record_site-Grows name p.value (DefSite.block_param bi pi) s

-- The state between the two loops over a block.
unfoldable pub params_scanned : Name → ℕ → BasicBlock → Scan → Scan
params_scanned name bi block s = each_from (scan_block_param name bi) 0 block.params s

params_scanned-Grows :
    (name : Name) (bi : ℕ) (block : BasicBlock) (s : Scan)
    → Grows s (params_scanned name bi block s)
unfolding params_scanned
params_scanned-Grows name bi block s =
    each_from-keeps Grows Grows-refl Grows-trans (scan_block_param name bi)
      (scan_block_param-Grows name bi) 0 block.params s

pub scan_block-Grows :
    (name : Name) (values bi : ℕ) (block : BasicBlock) (s : Scan)
    → Grows s (scan_block name values bi block s)
unfolding scan_block params_scanned
scan_block-Grows name values bi block s =
    Grows-trans s (params_scanned name bi block s) _ (params_scanned-Grows name bi block s) (
      each_from-keeps Grows Grows-refl Grows-trans (scan_instruction name values bi)
        (scan_instruction-Grows name values bi) 0 block.instructions
        (params_scanned name bi block s))

pub scan_param_lem :
    (name : Name) (i : ℕ) (p : Param) (s : Scan)
    → (scan_param name i p s).errors ≡ []
    → (p.value ≡ i) × ((scan_param name i p s).defined p.value ≡ some (DefSite.function_param i))
unfolding scan_param
scan_param_lem name i p s h = elim (Bool-cases (p.value == i)) [
  | inl e ↦ (
    (==_iff p.value i).0 e,
    rw e (recorded name p.value (DefSite.function_param i) s (rw e at h)),
  )
  | inr e ↦
      let q =
        (record_site-Grows name p.value (DefSite.function_param i) (push _ s)).clean (rw e at h) in
      let z = (append_nil-parts s.errors _ q).1 in absurd (cc z)
]

scan_result_lem :
    (name : Name) (values bi ii result : ℕ) (s : Scan)
    → (scan_result name values bi ii result s).errors ≡ []
    → (result < values)
      × ((scan_result name values bi ii result s).defined result ≡ some (DefSite.inst bi ii))
unfolding scan_result
scan_result_lem name values bi ii result s h = elim (Bool-cases (leb values result)) [
  | inl e ↦ absurd (
      let q : s.errors ++ (_ ∷ []) ≡ [] = rw e at h in
      let z = (append_nil-parts s.errors _ q).1 in cc z)
  | inr e ↦ (ground arith, rw e (recorded name result (DefSite.inst bi ii) s (rw e at h)))
]

pub scan_instruction_lem :
    (name : Name) (values bi ii : ℕ) (inst : Instruction) (result : ℕ) (s : Scan)
    → inst.result ≡ some result
    → (scan_instruction name values bi ii inst s).errors ≡ []
    → (result < values)
      × ((scan_instruction name values bi ii inst s).defined result ≡ some (DefSite.inst bi ii))
unfolding scan_instruction
scan_instruction_lem name values bi ii inst result s e h =
    rw e (scan_result_lem name values bi ii result s (rw e at h))
