-- ===== src/Scenarios/Resubmits.antt =====
-- `reconcile`, `resubmit` and `submitVia` on the node of Scenarios.Nodes.
use sui_effect.Prelude.{ℕ, zero, suc, some, [], ◌∷◌, refl, codes, text_eq}
use sui_effect.Journal.{Result, success, failure, executed_entry, is_unresolved}
use sui_effect.Journal.Memory.{Entries, make_memory_unsafe, lookup}
use sui_effect.Tx.Network.{World}
use sui_effect.Tx.Recover.{by_signed, reconcile_unjournaled}
use sui_effect.Tx.Network.{ask}
use sui_effect.Tx.Submit.Trace.{OnlyWrites, Ends}
use sui_effect.Tx.Resubmit.{
  Reply, acknowledged, ServiceFailure, declared_not_applied, reconcile, resubmit, submit_via,
}
use sui_effect.Tx.Resubmit.Resend.{ResentAt}
use sui_effect.Tx.Resubmit.Answers.{Stands, reconcile-Stands, resubmit-ResentAt, resubmit-settled}
use sui_effect.Tx.Resubmit.Service.{Via, submit_via-Via}
use sui_effect.Scenarios.Nodes.{digest, env, signed, start, restart}

reconcile-Stands_example :
    Ends
      (Stands env (reconcile_unjournaled env (by_signed signed) restart).0 restart)
      (reconcile env (by_signed signed) restart)
reconcile-Stands_example = reconcile-Stands env (by_signed signed) restart

resubmit-ResentAt_example :
    Ends (ResentAt env signed restart) (resubmit env (by_signed signed) restart)
resubmit-ResentAt_example = resubmit-ResentAt env signed restart

-- A journal that holds the answer.
abbrev settled : World Entries
settled = record {
  tick = 0;
  journal = (digest, executed_entry digest (some 40) 1) ∷ [];
  trace = [];
}

resubmit-settled_example :
    OnlyWrites settled.trace (resubmit env (by_signed signed) settled).1.trace
unfolding is_unresolved make_memory_unsafe lookup text_eq
resubmit-settled_example =
    resubmit-settled env signed (executed_entry digest (some 40) 1) settled refl refl

-- A service that declares it refused, and one that acknowledges without an answer.
abbrev service : ℕ → Result ServiceFailure Reply
service zero = failure (declared_not_applied (codes "no gas"))
service (suc n) = success acknowledged

submit_via-Via_example :
    Ends (Via env signed service start) (submit_via env signed (ask service) start)
submit_via-Via_example = submit_via-Via env signed service start
