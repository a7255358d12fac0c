-- ===== src/Dedupe/Memory.antt =====
-- Both strategies remember what they recorded: the bounded cache, and two layers if one does.
use hookbox.Prelude.{◌⊎◌, sym, subst, ◌≡◌, refl, String, Result, ok, err, arith, inl, inr}
use hookbox.Domain.{DedupeDecision, DedupeError}
use hookbox.Dedupe.Strategy.{DedupeStrategy, Remembers}
use hookbox.Dedupe.Recent.{recent_strategy}
use hookbox.Dedupe.Window.{IsValid, record_key-IsValid, check-record_key_ne}
use hookbox.Dedupe.Layered
use hookbox.Dedupe.Layered.{LayeredDedupe, layered_strategy, check_after, record_after}

-- A valid bounded cache knows a key right after it was recorded, evictions included.
pub recent_strategy-Remembers : Remembers recent_strategy IsValid
recent_strategy-Remembers = record {
  keeps = record_key-IsValid;
  knows = λ k h h' s v _ e. check-record_key_ne k h h' s v (ground (arith, e));
}

module _ {F A : Type 0} (fast : DedupeStrategy F) (authoritative : DedupeStrategy A) where
  record_after-fast :
      (k h : String) (p : Result (Unit {0}) DedupeError × F) (a : A)
      → (record_after fast authoritative k h p a).1.fast ≡ p.1
  unfolding record_after
  record_after-fast k h (ok u, f) a = refl
  record_after-fast k h (err e, f) a = refl

  record_after-authoritative :
      (k h : String) (p : Result (Unit {0}) DedupeError × F) (a : A)
      → ((record_after fast authoritative k h p a).1.authoritative ≡ a)
        ⊎ ((record_after fast authoritative k h p a).1.authoritative
            ≡ (authoritative.record_key k h a).1)
  unfolding record_after
  record_after-authoritative k h (ok u, f) a = inr refl
  record_after-authoritative k h (err e, f) a = inl refl

  record_after-ok :
      (k h : String) (p : Result (Unit {0}) DedupeError × F) (a : A)
      → (record_after fast authoritative k h p a).0 ≡ ok tt
      → (p.0 ≡ ok tt)
        × ((authoritative.record_key k h a).0 ≡ ok tt)
        × ((record_after fast authoritative k h p a).1.authoritative
            ≡ (authoritative.record_key k h a).1)
  unfolding record_after
  record_after-ok k h (ok u, f) a e = (refl, e, refl)
  record_after-ok k h (err x, f) a e = absurd (ground arith)

  check_after-new :
      (k h : String) (p : Result DedupeDecision DedupeError × F) (a : A)
      → (check_after fast authoritative k h p a).0 ≡ ok DedupeDecision.new
      → (p.0 ≡ ok DedupeDecision.new) × ((authoritative.check k h a).0 ≡ ok DedupeDecision.new)
  unfolding check_after
  check_after-new k h (ok DedupeDecision.new, f) a e = (refl, e)
  check_after-new k h (ok DedupeDecision.duplicate, f) a e = absurd (ground arith)
  check_after-new k h (ok DedupeDecision.conflict, f) a e = absurd (ground arith)
  check_after-new k h (err x, f) a e = absurd (ground arith)

  -- Two layers remember what the fast one remembers: neither an error of the authoritative layer
  -- nor its answer undoes that.
  pub layered_strategy-Remembers_fast :
      {Inv : F → Type 0}
      → Remembers fast Inv
      → Remembers (layered_strategy fast authoritative) (λ s. Inv s.fast)
  unfolding Layered.check Layered.record_key
  layered_strategy-Remembers_fast {Inv} r = record {
    keeps = λ k h s v.
        subst Inv (sym (record_after-fast k h (fast.record_key k h s.fast) s.authoritative))
          (r.keeps k h s.fast v);
    knows = λ k h h' s v done e.
        r.knows k h h' s.fast v (record_after-ok k h _ s.authoritative done).0 (
          subst (λ f. (fast.check k h' f).0 ≡ ok DedupeDecision.new)
            (record_after-fast k h (fast.record_key k h s.fast) s.authoritative)
            (check_after-new k h' _ _ e).0);
  }

  -- Two layers remember what the authoritative one remembers.
  pub layered_strategy-Remembers_authoritative :
      {Inv : A → Type 0}
      → Remembers authoritative Inv
      → Remembers (layered_strategy fast authoritative) (λ s. Inv s.authoritative)
  unfolding Layered.check Layered.record_key
  layered_strategy-Remembers_authoritative {Inv} r = record {
    keeps = λ k h s v.
        elim (record_after-authoritative k h (fast.record_key k h s.fast) s.authoritative) [
          | inl same ↦ subst Inv (sym same) v
          | inr moved ↦ subst Inv (sym moved) (r.keeps k h s.authoritative v)
        ];
    knows = λ k h h' s v done e.
        let (_, stored, moved) = record_after-ok k h _ s.authoritative done in
        r.knows k h h' s.authoritative v stored (
          subst (λ a. (authoritative.check k h' a).0 ≡ ok DedupeDecision.new) moved
            (check_after-new k h' _ _ e).1);
  }
