-- ===== src/TestTools/Calls.antt =====
-- The proofs on the calls of a test whose files and caches say the same.
use flagsmith_common.Base.{
  ◌≡◌, refl, ap, ◌⊎◌, inl, inr, Bool, true, false, none, some, List, [], ◌∷◌, map, if◌then◌else◌,
  str_eq,
}
use flagsmith_common.Base.Sets.{member}
use flagsmith_common.TestTools.Editions.{
  Cache, Process, saas_deployment, enterprise_version, exists, is_saas, is_enterprise,
  edition_printer, Call, ask_saas, ask_enterprise, print_edition, Answer, truth, printed, call,
  call_each,
}

-- A cache that is empty or holds this.
abbrev pub Holds : Bool → Cache → Type 0
Holds b cache = (cache ≡ none) ⊎ (cache ≡ some b)

-- The files of the two editions are there as these two say, and the caches say so or nothing.
pub record IsReady (saas enterprise : Bool) (p : Process) : Type 0 where
  pub saas_file : exists saas_deployment p ≡ saas
  pub enterprise_file : exists enterprise_version p ≡ enterprise
  pub saas_cached : Holds saas p.is_saas_cache
  pub enterprise_cached : Holds enterprise p.is_enterprise_cache
  pub saas_set_up : p.has_saas_mode ≡ saas
  pub enterprise_set_up : p.has_enterprise_mode ≡ enterprise
  pub real_saas : member str_eq saas_deployment p.files ≡ false
  pub real_enterprise : member str_eq enterprise_version p.files ≡ false

-- What a call answers in such a deployment.
abbrev pub expected : Bool → Bool → Call → Answer
expected saas enterprise ask_saas = truth saas
expected saas enterprise ask_enterprise = truth enterprise
expected saas enterprise print_edition =
    printed (if saas then "saas!" else if enterprise then "enterprise!" else "oss!")

is_saas-IsReady :
    (s e : Bool) (p : Process) → IsReady s e p → ((is_saas p).0 ≡ s) × IsReady s e (is_saas p).1
unfolding is_saas
is_saas-IsReady s e p h = elim h.saas_cached [
  | inl f ↦
      rw (is_saas, f)
        (
          h.saas_file,
          record {
            saas_file = h.saas_file;
            enterprise_file = h.enterprise_file;
            saas_cached = inr (ap some h.saas_file);
            enterprise_cached = h.enterprise_cached;
            saas_set_up = h.saas_set_up;
            enterprise_set_up = h.enterprise_set_up;
            real_saas = h.real_saas;
            real_enterprise = h.real_enterprise;
          },
        )
  | inr f ↦ rw (is_saas, f) (refl, h)
]

is_enterprise-IsReady :
    (s e : Bool) (p : Process)
    → IsReady s e p
    → ((is_enterprise p).0 ≡ e) × IsReady s e (is_enterprise p).1
unfolding is_enterprise
is_enterprise-IsReady s e p h = elim h.enterprise_cached [
  | inl f ↦
      rw (is_enterprise, f)
        (
          h.enterprise_file,
          record {
            saas_file = h.saas_file;
            enterprise_file = h.enterprise_file;
            saas_cached = h.saas_cached;
            enterprise_cached = inr (ap some h.enterprise_file);
            saas_set_up = h.saas_set_up;
            enterprise_set_up = h.enterprise_set_up;
            real_saas = h.real_saas;
            real_enterprise = h.real_enterprise;
          },
        )
  | inr f ↦ rw (is_enterprise, f) (refl, h)
]

call-IsReady :
    (s e : Bool) (c : Call) (p : Process)
    → IsReady s e p
    → ((call c p).0 ≡ expected s e c) × IsReady s e (call c p).1
unfolding call edition_printer
call-IsReady s e ask_saas p h = let (a, k) = is_saas-IsReady s e p h in (ap truth a, k)
call-IsReady s e ask_enterprise p h = let (a, k) = is_enterprise-IsReady s e p h in (ap truth a, k)
call-IsReady true e print_edition p h =
    let (a, k) = is_saas-IsReady true e p h in rw (edition_printer, a) (refl, k)
call-IsReady false true print_edition p h =
    let (a, k) = is_saas-IsReady false true p h in
    let (a', k') = is_enterprise-IsReady false true (is_saas p).1 k in
    rw (edition_printer, a, a') (refl, k')
call-IsReady false false print_edition p h =
    let (a, k) = is_saas-IsReady false false p h in
    let (a', k') = is_enterprise-IsReady false false (is_saas p).1 k in
    rw (edition_printer, a, a') (refl, k')

pub call_each-IsReady :
    (s e : Bool) (calls : List Call) (p : Process)
    → IsReady s e p
    → ((call_each calls p).0 ≡ map (expected s e) calls) × IsReady s e (call_each calls p).1
unfolding call_each
call_each-IsReady s e [] p h = (refl, h)
call_each-IsReady s e (c ∷ calls) p h =
    let (a, k) = call-IsReady s e c p h in
    let (rest, k') = call_each-IsReady s e calls (call c p).1 k in (rw (a, rest) refl, k')
