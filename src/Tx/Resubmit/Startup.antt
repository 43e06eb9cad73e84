-- ===== src/Tx/Resubmit/Startup.antt =====
-- `reconcileAll`: one answer for each unresolved entry, in the journal's order.
use sui_effect.Prelude.{ℕ, Bool, true, false, none, List, [], ◌∷◌, ◌≡◌, refl, subst, sym}
use sui_effect.Schemas.{Digest, Signed}
use sui_effect.Journal.{
  JournalEntry, signed_entry, executed_entry, failed_entry, unknown_entry, not_applied_entry,
  JournalError, Result, success, failure,
}
use sui_effect.Tx.Network.{
  Env, World, Eff, Failure, transport_error, execution_failed, not_applied, submission_unknown,
  journal_error, Executed, ◌>>=◌, pure,
}
use sui_effect.Tx.Submit
use sui_effect.Tx.Submit.{
  executed_answer, failed_answer, not_applied_answer, unknown_answer, settle, from_journal,
}
use sui_effect.Tx.Submit.Trace.{OnlyWrites, unchanged, OnlyWrites-trans, Ends, Ends-bind, Logs}
use sui_effect.Tx.Submit.Settling.{About, settle-never_fails}
use sui_effect.Tx.Resubmit.{
  resend, after_resend, resend_unknown, settle_entry, settle_all, reconcile_all,
}
use sui_effect.Tx.Resubmit.Resend.{Resent, resend-ResentAt}

-- The bytes of the unresolved entries, in order.
unfoldable pub signed_of_entries : List JournalEntry → List Signed
signed_of_entries [] = []
signed_of_entries (signed_entry d s at ∷ es) = s ∷ signed_of_entries es
signed_of_entries (unknown_entry d s l n at ∷ es) = s ∷ signed_of_entries es
signed_of_entries (executed_entry d c at ∷ es) = signed_of_entries es
signed_of_entries (failed_entry d r at ∷ es) = signed_of_entries es
signed_of_entries (not_applied_entry d e at ∷ es) = signed_of_entries es

module _ {J : Type 0} (env : Env J) where
  -- One answer for each, about its digest and in the same order.
  abbrev pub Answered : List Signed → List Submit.Reconciled → Type 0
  Answered [] [] = Unit
  Answered (s ∷ ss) (r ∷ rs) = About env s.digest r × Answered ss rs
  Answered [] (r ∷ rs) = ⊥
  Answered (s ∷ ss) [] = ⊥

  after_resend-About :
      (d : Digest) (settled : Submit.Reconciled) (r : Result Failure Executed) (v : World J)
      → About env d settled
      → Resent d r
      → (a : Submit.Reconciled) × (after_resend env settled r v ≡ (success a, v)) × About env d a
  after_resend-About d settled (success e) v h q = (executed_answer e, refl, q)
  after_resend-About d settled (failure (execution_failed e)) v h q = (failed_answer e, refl, q)
  after_resend-About d settled (failure (not_applied e)) v h q = (not_applied_answer e, refl, q)
  after_resend-About d settled (failure (submission_unknown e)) v h q = (unknown_answer e, refl, q)
  after_resend-About d settled (failure (transport_error e)) v h q = absurd q
  after_resend-About d settled (failure (journal_error e)) v h q = (settled, refl, h)

  -- A success; without `resubmit`, only journal writes are added.
  abbrev Settles :
      {A : Type 0} → Bool → World J → (A → Type 0) → Result Failure A → World J → Type 0
  Settles flag w P (success a) v = P a × (flag ≡ false → OnlyWrites w.trace v.trace)
  Settles flag w P (failure e) v = ⊥

  resend_unknown-Settles :
      (flag : Bool) (s : Signed) (w : World J) (settled : Submit.Reconciled) (v : World J)
      → About env s.digest settled
      → OnlyWrites w.trace v.trace
      → Ends (Settles flag w (About env s.digest)) (resend_unknown env flag s settled v)
  resend_unknown-Settles false s w settled v h o = (h, λ _. o)
  resend_unknown-Settles true s w (executed_answer e) v h o = (h, λ _. o)
  resend_unknown-Settles true s w (failed_answer e) v h o = (h, λ _. o)
  resend_unknown-Settles true s w (not_applied_answer e) v h o = (h, λ _. o)
  resend_unknown-Settles true s w (unknown_answer u) v h o =
      let (a, q, about) =
        after_resend-About s.digest (unknown_answer u) (resend env s v).0 (resend env s v).1 h
          (resend-ResentAt env s v).0 in
      subst (λ x. Ends (Settles true w (About env s.digest)) x) (sym q) (about, λ z. cc)

  settle_entry-Settles :
      (flag : Bool) (s : Signed) (n : ℕ) (w : World J)
      → Ends (Settles flag w (About env s.digest)) (settle_entry env flag s n w)
  unfolding settle_entry
  settle_entry-Settles flag s n w =
      Ends-bind (Logs w (About env s.digest)) (Settles flag w (About env s.digest))
        (settle env s n none 0) (resend_unknown env flag s) w (settle-never_fails env s n none 0 w)
        (λ a v h. resend_unknown-Settles flag s w a v h.0 h.1) (λ e v h. absurd h)

  -- One more answer at the head of a list.
  cons-Settles :
      (flag : Bool) (s : Signed) (ss : List Signed) (n : ℕ) (rest : Eff J (List Submit.Reconciled))
      (w : World J)
      → ((v : World J) → Ends (Settles flag v (Answered ss)) (rest v))
      → Ends
          (Settles flag w (Answered (s ∷ ss)))
          ((settle_entry env flag s n >>= λ r. rest >>= λ rs. pure (r ∷ rs)) w)
  cons-Settles flag s ss n rest w h =
      Ends-bind (Settles flag w (About env s.digest)) (Settles flag w (Answered (s ∷ ss)))
        (settle_entry env flag s n) (λ r. rest >>= λ rs. pure (r ∷ rs)) w
        (settle_entry-Settles flag s n w) tail (λ e v q. absurd q)
    where
      tail :
          (r : Submit.Reconciled) (v : World J)
          → Settles flag w (About env s.digest) (success r) v
          → Ends (Settles flag w (Answered (s ∷ ss))) ((rest >>= λ rs. pure (r ∷ rs)) v)
      tail r v q =
          Ends-bind (Settles flag v (Answered ss)) (Settles flag w (Answered (s ∷ ss))) rest
            (λ rs. pure (r ∷ rs)) v (h v)
            (λ rs u k. ((q.0, k.0), λ z. OnlyWrites-trans (q.1 z) (k.1 z))) (λ e u k. absurd k)

  settle_all-Settles :
      (flag : Bool) (es : List JournalEntry) (w : World J)
      → Ends (Settles flag w (Answered (signed_of_entries es))) (settle_all env flag es w)
  unfolding settle_all signed_of_entries
  settle_all-Settles flag [] w = (tt, λ _. unchanged)
  settle_all-Settles flag (signed_entry d s at ∷ es) w =
      cons-Settles flag s (signed_of_entries es) 1 (settle_all env flag es) w
        (settle_all-Settles flag es)
  settle_all-Settles flag (unknown_entry d s l n at ∷ es) w =
      cons-Settles flag s (signed_of_entries es) n (settle_all env flag es) w
        (settle_all-Settles flag es)
  settle_all-Settles flag (executed_entry d c at ∷ es) w = settle_all-Settles flag es w
  settle_all-Settles flag (failed_entry d r at ∷ es) w = settle_all-Settles flag es w
  settle_all-Settles flag (not_applied_entry d e at ∷ es) w = settle_all-Settles flag es w

  -- What the journal lists as unresolved now.
  abbrev pub listed : World J → Result JournalError (List JournalEntry)
  listed w = (env.journal.list_unresolved w.journal).0

  -- The result of `reconcileAll`.
  abbrev pub Settled :
      Bool
      → World J
      → Result JournalError (List JournalEntry)
      → Result Failure (List Submit.Reconciled)
      → World J
      → Type 0
  Settled flag w (success es) r v =
      (rs : List Submit.Reconciled) × (r ≡ success rs)
      × Answered (signed_of_entries es) rs
      × (flag ≡ false → OnlyWrites w.trace v.trace)
  Settled flag w (failure e) r v = (r ≡ failure (journal_error e)) × (v.trace ≡ w.trace)

  -- `reconcileAll` fails only with the failure of reading the journal, and has then done nothing.
  -- Otherwise it answers once for every unresolved entry that the journal listed, in that order,
  -- each answer about the digest of the entry's bytes, whatever the node and the journal's writes
  -- do; and without `resubmit` it sends nothing: it adds only journal writes to the trace.
  pub reconcile_all-Settled :
      (flag : Bool) (w : World J) → Ends (Settled flag w (listed w)) (reconcile_all env flag w)
  unfolding reconcile_all
  reconcile_all-Settled flag w = read (listed w)
    where
      world : World J
      world = record w { journal = (env.journal.list_unresolved w.journal).1 }

      all :
          (es : List JournalEntry) (x : Result Failure (List Submit.Reconciled) × World J)
          → Settles flag world (Answered (signed_of_entries es)) x.0 x.1
          → Settled flag w (success es) x.0 x.1
      all es (success rs, v) h = (rs, refl, h.0, h.1)
      all es (failure e, v) h = absurd h

      read :
          (r : Result JournalError (List JournalEntry))
          → Ends (Settled flag w r) ((from_journal env r >>= settle_all env flag) world)
      read (success es) = all es (settle_all env flag es world) (settle_all-Settles flag es world)
      read (failure e) = (refl, refl)
