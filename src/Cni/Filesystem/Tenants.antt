-- ===== src/Cni/Filesystem/Tenants.antt =====
-- `OccupyNetEndpoint`, `FreeNetEndpoint` and `assertFileNotExists` of cni/store/filesystem.
use mathlib.Core.Path.{subst}
use barrel.Prelude.{
  String, not, Option, none, some, List, [], ◌∷◌, ◌≡◌, refl, sym, ap, ◌∙◌, inl, inr, All, string_eq,
  ◌==◌, beq_iff, beq_refl, Bool-cases,
}
use barrel.Types.{Result, Error, IsForeign, other}
use barrel.Method.{
  fail, Ends, returns, fails, >>=-Ends, >>-Ends, catch-Ends, Ends-mono, log_error, fail_if, ◌>>◌,
}
use barrel.Cni.Endpoint.{FilePath, path_eq, NetEndpoint, tenant_path}
use barrel.Cni.Files.{Disk, file, find, open_excl, write, read_file, remove, stat}
use barrel.Cni.Store.{Book, Meets, refines, Occupies, Frees, Answers, Fails, update}
use barrel.Cni.Filesystem.{remains, assert_file_not_exists, occupy_net_endpoint, free_net_endpoint}
use barrel.Cni.Filesystem.View.{Stands, Changed, target_of, text_of, update_twice}
use barrel.Cni.Filesystem.Calls.{open_excl-Ends, write-Ends, read_file-Ends, remove-Ends, stat-Ends}
use barrel.Cni.Filesystem.Moves.{tidy_direct, unmoved, moved_tenant}

-- The check passes only where none of the files is there.
pub assert_file_not_exists-Ends :
    (ps : List FilePath) (d : Disk)
    → All (λ p. target_of (find d.entries p) ≡ none) ps
    → Ends
        (λ _ d'. All (λ p. find d.entries p ≡ none) ps × (d' ≡ d))
        (λ e d'. IsForeign e × ¬ All (λ p. find d.entries p ≡ none) ps × (d' ≡ d))
        (assert_file_not_exists ps d)
unfolding assert_file_not_exists
assert_file_not_exists-Ends [] d t = returns (tt, refl)
assert_file_not_exists-Ends (p ∷ ps) d (t, ts) =
    catch-Ends (stat p) (λ _. fail remains) (λ e. assert_file_not_exists ps) d (stat-Ends d p t)
      (λ u d' (n, e). fails (tt, (λ all. n all.0), e))
      (λ e d' (f, n, same). rw same (
        Ends-mono (assert_file_not_exists-Ends ps d ts) (λ u d'' (ns, s). ((n, ns), s))
          (λ e d'' (f, some_left, s). (f, (λ all. some_left all.1), s))))

-- A call whose error is only logged.
pub logged-Ends :
    {W A : Type 0} {Q : A → W → Type 0} {E : Error → W → Type 0} {r : Result A × W} (P : W → Type 0)
    → Ends Q E r
    → ((a : A) (w : W) → Q a w → P w)
    → ((e : Error) (w : W) → E e w → P w)
    → P r.1
logged-Ends P (returns {a} {w} q) h k = h a w q
logged-Ends P (fails {e} {w} q) h k = k e w q

module _ (root id : String) (nep : NetEndpoint) (b : Book) where
  abbrev p : FilePath
  p = tenant_path root nep.ipv4

  tenant_of : (d : Disk) → Stands root b d → b.tenant nep.ipv4 ≡ text_of (find d.entries p)
  tenant_of d st = sym (ap (λ a. a.tenant nep.ipv4) st.stands)

  abbrev tenanted : Option String → Book
  tenanted t = record b { tenant = update b.tenant nep.ipv4 t }

  named :
      (d d' : Disk)
      → (find d.entries p ≡ none) × Changed p (some (file "")) d.entries d'.entries
      → Stands root b d
      → Ends
          (Answers (Stands root) (Occupies id nep) b)
          (Fails (Stands root) (Occupies id nep) b)
          (write p id d')
  named d d' (free, c) st =
      let held = moved_tenant root {d' = d'} nep.ipv4 c refl st in
      Ends-mono (write-Ends d' p id "" (c.reads p ∙ rw (beq_refl p) refl))
        (λ u d'' c'. (
          tenanted (some id),
          (tenant_of d st ∙ ap text_of free, refl),
          subst (λ t. Stands root (record b { tenant = t }) d'')
              (update_twice b.tenant nep.ipv4 (some "") (some id))
              (moved_tenant root nep.ipv4 c' refl held),
        ))
        (λ e d'' (f, same). (
          tenanted (some ""),
          (f, inr (tenant_of d st ∙ ap text_of free, refl)),
          unmoved root same held,
        ))

  pub occupy_lem : Meets (Stands root) (Occupies id nep) b (occupy_net_endpoint root id nep)
  unfolding occupy_net_endpoint
  occupy_lem = refines (Stands root) (Occupies id nep) b (λ d st.
      >>-Ends (open_excl p) (write p id) d (open_excl-Ends d p) (λ d' h. named d d' h st)
        (λ e d' ((f, t), same). (b, (f, inl refl), unmoved root same st)))

  some-ne-none : some id ≡ none → ⊥
  some-ne-none e = cc

  abbrev Freeing : Disk → Type 0
  Freeing d' =
      Ends (Answers (Stands root) (Frees id nep) b) (Fails (Stands root) (Frees id nep) b)
        (assert_file_not_exists (p ∷ []) d')

  freed : (d : Disk) → b.tenant nep.ipv4 ≡ some id → Stands root b d → Freeing (remove p d).1
  freed d held st =
      logged-Ends Freeing (remove-Ends d p)
        (λ u d' c.
          let gone = moved_tenant root {d' = d'} nep.ipv4 c refl st in
          Ends-mono (assert_file_not_exists-Ends (p ∷ []) d' (tidy_direct p gone.tidy refl, tt))
            (λ u d'' (n, same).
              (tenanted none, (held, refl), subst (Stands root (tenanted none)) (sym same) gone))
            (λ e d'' (f, left, same). absurd (left (c.reads p ∙ rw (beq_refl p) refl, tt))))
        (λ e d' (f, s).
          let kept = unmoved root {d' = d'} s st in
          Ends-mono (assert_file_not_exists-Ends (p ∷ []) d' (tidy_direct p kept.tidy refl, tt))
            (λ u d'' ((n, _), same).
              absurd (some-ne-none (sym held ∙ tenant_of d' kept ∙ ap text_of n)))
            (λ e d'' (f, left, same). (b, (f, refl), subst (Stands root b) (sym same) kept)))

  released :
      (d d' : Disk) (x : String)
      → (find d.entries p ≡ some (file x)) × (d'.entries ≡ d.entries)
      → Stands root b d
      → Ends (Answers (Stands root) (Frees id nep) b) (Fails (Stands root) (Frees id nep) b) (
          (fail_if (not (x == id)) (other "invalid free request, id not match")
              >> (log_error (remove p) >> assert_file_not_exists (p ∷ [])))
            d')
  released d d' x (e, s) st = elim (Bool-cases (x == id)) [
    | inl own ↦ rw own (
        freed d' (tenant_of d st ∙ ap text_of e ∙ ap some ((beq_iff x id).0 own))
          (unmoved root s st))
    | inr other_tenant ↦ rw other_tenant (fails (b, (tt, refl), unmoved root s st))
  ]

  pub free_lem : Meets (Stands root) (Frees id nep) b (free_net_endpoint root id nep)
  unfolding free_net_endpoint
  free_lem = refines (Stands root) (Frees id nep) b (λ d st.
      >>=-Ends (read_file p) _ d (read_file-Ends d p (tidy_direct p st.tidy refl))
        (λ x d' h. released d d' x h st) (λ e d' (f, same). (b, (f, refl), unmoved root same st)))
