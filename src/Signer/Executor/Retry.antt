-- ===== src/Signer/Executor/Retry.antt =====
-- A second request for an authorization with escrow terms, decoded again.
use flowops.Prelude.{◌≡◌, ◌≢◌, true, false, none, some, text_eq, lookup, arith}
use flowops.Envelope.Grammar.{rail_escrow}
use flowops.Envelope.Types.{EscrowPointer, SignedAuthorization, signed_eq}
use flowops.Signer.Types.{Outside, Attempt}
use flowops.Signer.Journal.{Codec}
use flowops.Signer.Journal.Restart.{authorization_eq-pointers}
use flowops.Signer.World.{World, Answers, Executor, attempt_conflict}
use flowops.Signer.Executor.{execute}

signed_eq-pointers :
    (s t : SignedAuthorization) (p q : EscrowPointer)
    → s.authorization.escrow ≡ some p
    → t.authorization.escrow ≡ some q
    → p.address ≢ q.address
    → signed_eq s t ≡ false
unfolding signed_eq
signed_eq-pointers s t p q h k n =
    ground (arith, authorization_eq-pointers s.authorization t.authorization p q h k n)

-- A request on the escrow rail for an authorization that has an attempt is refused as a conflict,
-- and changes nothing, if its escrow terms stand behind another pointer than the attempt's: also
-- when it is the same request, byte for byte, decoded once more.
pub execute-escrow_retry :
    (o : Outside) (c : Codec) (x : Executor) (ans : Answers) (signed : SignedAuthorization)
    (w : World) (existing : Attempt) (p q : EscrowPointer)
    → text_eq signed.authorization.rail rail_escrow ≡ true
    → lookup signed.authorization.authorization_id w.journal.attempts ≡ some existing
    → existing.authorization.authorization.escrow ≡ some p
    → signed.authorization.escrow ≡ some q
    → p.address ≢ q.address
    → execute o c x ans signed w ≡ (none, some attempt_conflict, w)
unfolding execute
execute-escrow_retry o c x ans signed w existing p q r l h k n =
    ground (arith, signed_eq-pointers existing.authorization signed p q h k n)
