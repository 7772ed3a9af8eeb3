-- ===== src/Signer/Nonces/Once.antt =====
-- A nonce is claimed at most once, over all claims, failures and restarts; and what a failed
-- synchronization costs.
use flowops.Prelude.{
  ℕ, suc, ◌≤◌, ◌<◌, ◌≡◌, ◌≢◌, Bool, true, false, not, ◌||◌, List, [], ◌∷◌, ◌++◌, Text, text_eq,
  text_in, text_eq_iff, text_eq_refl, is_empty, ok, err, arith, if◌then◌else◌, inr,
}
use flowops.Strings.Lines.{newline, raw_lines, is_whole, take, raw_lines-append, is_whole-append}
use flowops.Signer.Nonces.{
  NonceStore, LineWritten, landed, stopped, unsynced, breaks_line, claim_line, write_claim, claim,
  replay_claims,
}
use flowops.Signer.Nonces.Lines.{
  on_file, on_file-append, on_file-claim_line, replay_lines-keeps, replay_lines-twice,
}

-- A store with the number of claims of one key that have returned no error, and whether a claim has
-- ever left the file without a newline at its end.
pub record Claims : Type 0 where
  pub store : NonceStore
  pub granted : ℕ
  pub torn : Bool

abbrev pub after_claim : Text → Claims → Bool → LineWritten → Text → ℕ → Claims
after_claim key s is_cancelled wr k claimed_at =
    let (r, store) = claim is_cancelled wr k claimed_at s.store in
    record {
      store = store;
      granted = elim r [
        | ok _ ↦ if text_eq key k then suc s.granted else s.granted
        | err _ ↦ s.granted
      ];
      torn = s.torn || not (is_whole store.file);
    }

-- A call of Claim for any key at any time, with any outcome of the write, and a restart that reads
-- the file.
pub data Step (key : Text) : Claims → Claims → Type 0 where
  claims :
      (s : Claims) (is_cancelled : Bool) (wr : LineWritten) (k : Text) (claimed_at : ℕ)
      → Step key s (after_claim key s is_cancelled wr k claimed_at)
  restarts :
      (s : Claims) (claimed : List Text)
      → replay_claims s.store.file ≡ ok claimed
      → Step key s (record s { store = record (s.store) { claimed = claimed } })

pub data Reach (key : Text) (s : Claims) : Claims → Type 0 where
  here : Reach key s s
  next : {t u : Claims} → Reach key s t → Step key t u → Reach key s u

record Inv (key : Text) (s : Claims) : Type 0 where
  whole : s.torn ≡ false → is_whole s.store.file ≡ true
  once : s.torn ≡ false → s.granted ≤ 1
  recorded :
      s.torn ≡ false
      → 0 < s.granted
      → (text_in key s.store.claimed ≡ true) × (on_file key s.store.file ≡ true)

claim-Inv :
    (key : Text) (s : Claims) (is_cancelled : Bool) (wr : LineWritten) (k : Text) (claimed_at : ℕ)
    → Inv key s
    → Inv key (after_claim key s is_cancelled wr k claimed_at)
unfolding claim write_claim
claim-Inv key s is_cancelled landed k claimed_at inv = ground (
  arith,
  inv.whole,
  inv.once,
  inv.recorded,
  on_file-append key s.store.file (claim_line k claimed_at ++ newline ∷ []),
  on_file-claim_line key k claimed_at,
  text_eq_iff key k,
)
claim-Inv key s is_cancelled unsynced k claimed_at inv = ground (
  arith,
  inv.whole,
  inv.once,
  inv.recorded,
  on_file-append key s.store.file (claim_line k claimed_at ++ newline ∷ []),
)
claim-Inv key s is_cancelled (stopped n) k claimed_at inv = ground (
  arith,
  inv.whole,
  inv.once,
  inv.recorded,
  on_file-append key s.store.file (take n (claim_line k claimed_at ++ newline ∷ [])),
)

Step-Inv : (key : Text) {s t : Claims} → Step key s t → Inv key s → Inv key t
unfolding replay_claims
Step-Inv key (claims s is_cancelled wr k claimed_at) inv =
    claim-Inv key s is_cancelled wr k claimed_at inv
Step-Inv key (restarts s claimed q) inv =
    let known = replay_lines-keeps key [] claimed (raw_lines s.store.file) q in
    record {
      whole = inv.whole;
      once = inv.once;
      recorded = λ t g. let (c, f) = inv.recorded t g in (known (inr f), f);
    }

Reach-Inv : (key : Text) {s t : Claims} → Reach key s t → Inv key s → Inv key t
Reach-Inv key here inv = inv
Reach-Inv key (next r st) inv = Step-Inv key st (Reach-Inv key r inv)

abbrev pub new_claims : Claims
new_claims = record { store = record { claimed = []; file = [] }; granted = 0; torn = false }

-- Over every sequence of claims of any keys at any times, with every outcome of the writes, and of
-- restarts: as long as no claim has left the file without a newline at its end, at most one claim of
-- a key has returned without an error.
pub claimed_at_most_once :
    (key : Text) {s : Claims} → Reach key new_claims s → s.torn ≡ false → s.granted ≤ 1
claimed_at_most_once key r = (Reach-Inv key r (ground arith)).once

-- On a file that is empty or ends with a newline: if the synchronization of a claim fails and the
-- claim of the same key is made again and written, at any times, that claim succeeds, and the file
-- then holds the key twice: no restart accepts it.
pub claim-unsynced_retry :
    (key : Text) (s : NonceStore) (first second : ℕ) (out : List Text)
    → is_whole s.file ≡ true
    → text_in key s.claimed ≡ false
    → (is_empty key || breaks_line key) ≡ false
    → let t = (claim false unsynced key first s).1 in
      let (r, u) = claim false landed key second t in (r ≡ ok tt) × (replay_claims u.file ≢ ok out)
unfolding claim write_claim replay_claims
claim-unsynced_retry key s first second out whole fresh fine =
    let f = s.file ++ (claim_line key first ++ newline ∷ []) in
    let g = claim_line key second ++ newline ∷ [] in
    let once : on_file key f ≡ true = ground (
      arith,
      on_file-append key s.file (claim_line key first ++ newline ∷ []) whole,
      on_file-claim_line key key first,
      text_eq_refl key,
    ) in
    let again : on_file key g ≡ true =
      ground (arith, on_file-claim_line key key second, text_eq_refl key) in
    let lines = raw_lines-append f g (is_whole-append s.file (claim_line key first)) in
    (
      ground arith,
      ground (arith, lines, replay_lines-twice key [] out (raw_lines f) (raw_lines g) once again),
    )
