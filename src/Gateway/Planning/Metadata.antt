-- ===== src/Gateway/Planning/Metadata.antt =====
-- The attribution metadata of gateway/service.py, its defaults and its refusal.
use agent_roi_console.Common.{
  ◌≡◌, refl, subst, ◌⊎◌, inl, inr, ◌∙◌, Bool, true, false, List, [], ◌∷◌, String, arith, All,
  All-mono, ◌≢◌, keep_if, none_kept, Has, str_eq, eq_iff, Bool-cases, Option-cases, if◌then◌else◌,
}
use agent_roi_console.Common.Dict.{Dict, lookup, insert, lookup-insert}
use agent_roi_console.Gateway.Planning.{
  Request, CallSettings, missing_metadata, done, refuses, Ensures, Ensures-done, metadata_fields,
  is_missing, fill_unknown, set_default, or_no_metadata, checked, metadata,
}

abbrev pub IsAttributed : Dict String → Type 0
IsAttributed d = All (λ f. is_missing d f ≡ false) metadata_fields

is_missing-insert :
    (k f v : String) (d : Dict String)
    → is_missing (insert k v d) f ≡ (if str_eq k f then str_eq v "" else is_missing d f)
is_missing-insert k f v d = elim (Bool-cases (str_eq k f)) [
  | inl e ↦ rw (lookup-insert k f v d, e) refl
  | inr e ↦ rw (lookup-insert k f v d, e) refl
]

insert-keeps :
    (k f v : String) (d : Dict String)
    → str_eq v "" ≡ false
    → is_missing d f ≡ false
    → is_missing (insert k v d) f ≡ false
insert-keeps k f v d e h = elim (Bool-cases (str_eq k f)) [
  | inl q ↦ is_missing-insert k f v d ∙ rw q e
  | inr q ↦ is_missing-insert k f v d ∙ rw q h
]

fill-keeps :
    (f : String) (fs : List String) (d : Dict String)
    → is_missing d f ≡ false
    → is_missing (fill_unknown fs d) f ≡ false
unfolding fill_unknown
fill-keeps f [] d h = h
fill-keeps f (g ∷ gs) d h =
    fill-keeps f gs (insert g "unknown" d) (insert-keeps g f "unknown" d refl h)

fill-fills :
    (f : String) (fs : List String) (d : Dict String)
    → Has f fs
    → is_missing (fill_unknown fs d) f ≡ false
unfolding fill_unknown
fill-fills f [] d h = absurd h
fill-fills f (g ∷ gs) d (inl e) =
    fill-keeps f gs (insert g "unknown" d)
      (is_missing-insert g f "unknown" d ∙ rw ((eq_iff g f).1 e) refl)
fill-fills f (g ∷ gs) d (inr h) = fill-fills f gs (insert g "unknown" d) h

set_default-keeps :
    (k v f : String) (d : Dict String)
    → str_eq v "" ≡ false
    → is_missing d f ≡ false
    → is_missing (set_default k v d) f ≡ false
unfolding set_default
set_default-keeps k v f d e h = elim (Option-cases (lookup k d)) [
  | inl q ↦ rw (set_default, q) (insert-keeps k f v d e h)
  | inr (w, q) ↦ rw (set_default, q) h
]

keep_if-Has :
    (keep : String → Bool) (f : String) (fs : List String)
    → Has f fs
    → (keep f ≡ false) ⊎ Has f (keep_if keep fs)
keep_if-Has keep f [] h = absurd h
keep_if-Has keep f (g ∷ gs) h = ground (arith, keep_if-Has keep f gs)

-- Every field is there once the missing ones are filled.
filled :
    (d : Dict String) (f : String)
    → Has f metadata_fields
    → is_missing (fill_unknown (keep_if (is_missing d) metadata_fields) d) f ≡ false
filled d f h = elim (keep_if-Has (is_missing d) f metadata_fields h) [
  | inl e ↦ fill-keeps f _ d e
  | inr k ↦ fill-fills f _ d k
]

filled-IsAttributed :
    (d : Dict String) → IsAttributed (fill_unknown (keep_if (is_missing d) metadata_fields) d)
filled-IsAttributed d = (
  filled d "workflow_id" (inl refl),
  (
    filled d "run_id" (inr (inl refl)),
    (
      filled d "step_id" (inr (inr (inl refl))),
      (filled d "step_class" (inr (inr (inr (inl refl)))), tt),
    ),
  ),
)

default-IsAttributed :
    (d : Dict String) → IsAttributed d → IsAttributed (set_default "cache" "on" d)
default-IsAttributed d h =
    All-mono (λ f k. set_default-keeps "cache" "on" f d refl k) metadata_fields h

checked-Ensures :
    (F : Type 0) (o_strict : Bool) (d : Dict String)
    → (fs : List String) → keep_if (is_missing d) metadata_fields ≡ fs
    → Ensures IsAttributed (checked {F = F} o_strict fs d)
unfolding checked
checked-Ensures F o_strict d [] e =
    default-IsAttributed d (none_kept (is_missing d) metadata_fields e)
checked-Ensures F true d (f ∷ fs) e = tt
checked-Ensures F false d (f ∷ fs) e =
    default-IsAttributed _
      (subst (λ gs. IsAttributed (fill_unknown gs d)) e (filled-IsAttributed d))

-- The metadata that a request is served under have a non-empty workflow, run, step and step class,
-- whether the gateway is strict or not.
pub metadata-IsAttributed :
    {F : Type 0} (settings : CallSettings F) (r : Request) (d : Dict String)
    → metadata settings r ≡ done d
    → IsAttributed d
unfolding metadata
metadata-IsAttributed settings r d e =
    Ensures-done IsAttributed (metadata settings r) e
      (checked-Ensures _ settings.o_strict (or_no_metadata r.metadata) _ refl)

checked-strict :
    {F : Type 0} (fs : List String) (d : Dict String)
    → fs ≢ []
    → checked {F = F} true fs d ≡ refuses (missing_metadata fs)
unfolding checked
checked-strict [] d h = absurd (h refl)
checked-strict (f ∷ fs) d h = refl

-- A strict gateway refuses a request that lacks a field, and reports all missing fields in their
-- order.
metadata-strict :
    {F : Type 0} (settings : CallSettings F) (r : Request)
    → settings.o_strict ≡ true
    → keep_if (is_missing (or_no_metadata r.metadata)) metadata_fields ≢ []
    → metadata settings r
      ≡ refuses
          (missing_metadata (keep_if (is_missing (or_no_metadata r.metadata)) metadata_fields))
unfolding metadata
metadata-strict settings r e h = rw e (checked-strict _ (or_no_metadata r.metadata) h)
