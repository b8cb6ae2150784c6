-- ===== src/Ble/Mailbox/Delivery.antt =====
-- A transport whose every step is that of a mailbox delivers as a mailbox does.
use mathlib.Core.List.{Sublistᴰ}
use mathlib.Core.Path.{subst}
use via_arduino.Base.{◌+◌, ◌≡◌, refl, ap, ◌∙◌, List, [], ◌∷◌, ◌++◌, length, u32, append_assoc}
use via_arduino.Protocol.Packet.{Packet}
use via_arduino.Ble.Mailbox
use via_arduino.Ble.Mailbox.{Mailbox, Event, offered, content, cleared, run-Sublist, run-accounts}

run-append :
    (xs ys : List Event) (m : Mailbox)
    → Mailbox.run (xs ++ ys) m ≡ (
      (Mailbox.run xs m).0 ++ (Mailbox.run ys (Mailbox.run xs m).1).0,
      (Mailbox.run ys (Mailbox.run xs m).1).1,
    )
unfolding Mailbox.run
run-append [] ys m = refl
run-append (x ∷ xs) ys m =
    let (out, m') = Mailbox.step x m in rw (run-append xs ys m', append_assoc) refl

-- What a sequence of steps hands over, and the state after it.
abbrev pub run_all : {S E : Type 0} → (E → S → List Packet × S) → List E → S → List Packet × S
run_all apply [] s = ([], s)
run_all apply (e ∷ es) s =
    let (out, s') = apply e s in let (outs, s'') = run_all apply es s' in (out ++ outs, s'')

abbrev pub all_seen : {E : Type 0} → (E → List Event) → List E → List Event
all_seen seen [] = []
all_seen seen (e ∷ es) = seen e ++ all_seen seen es

module _ {S E : Type 0} (apply : E → S → List Packet × S) (seen : E → List Event)
    (view : S → Mailbox) where
  -- A step is what the mailbox does at the events that it sees of it, in the states of `Ok`, which
  -- no step leaves.
  abbrev pub Simulates : (S → Type 0) → Type 0
  Simulates Ok =
      (e : E) (s : S)
      → Ok s
      → (Mailbox.run (seen e) (view s) ≡ ((apply e s).0, view (apply e s).1)) × Ok (apply e s).1

  module _ (Ok : S → Type 0) (sim : Simulates Ok) where
    run_all-Mailbox :
        (es : List E) (s : S)
        → Ok s
        → Mailbox.run (all_seen seen es) (view s)
          ≡ ((run_all apply es s).0, view (run_all apply es s).1)
    unfolding Mailbox.run
    run_all-Mailbox [] s h = refl
    run_all-Mailbox (e ∷ es) s h =
        let (one, still) = sim e s h in
        run-append (seen e) (all_seen seen es) (view s)
        ∙ ap
            (λ (r : List Packet × Mailbox). (
              r.0 ++ (Mailbox.run (all_seen seen es) r.1).0,
              (Mailbox.run (all_seen seen es) r.1).1,
            ))
            one
        ∙ ap (λ (r : List Packet × Mailbox). ((apply e s).0 ++ r.0, r.1))
            (run_all-Mailbox es (apply e s).1 still)

    -- What is handed over and then what waits was waiting or was offered, in order, and everything
    -- is accounted for.
    pub run_all-delivers :
        (es : List E) (s : S)
        → Ok s
        → let (got, s') = run_all apply es s in
          Sublistᴰ
            (got ++ content (view s').held)
            (content (view s).held ++ offered (all_seen seen es))
          × (u32 (
                length got
                + cleared (all_seen seen es) (view s)
                + length (content (view s').held)
                + (view s').dropped)
              ≡ u32 (
                  length (content (view s).held)
                  + (view s).dropped
                  + length (offered (all_seen seen es))))
    run_all-delivers es s h =
        let shown = run_all-Mailbox es s h in
        (
          subst
              (λ (r : List Packet × Mailbox).
                Sublistᴰ (r.0 ++ content r.1.held)
                  (content (view s).held ++ offered (all_seen seen es)))
              shown (run-Sublist (all_seen seen es) (view s)),
          subst
              (λ (r : List Packet × Mailbox).
                u32 (
                  length r.0
                  + cleared (all_seen seen es) (view s)
                  + length (content r.1.held)
                  + r.1.dropped)
                ≡ u32 (
                    length (content (view s).held)
                    + (view s).dropped
                    + length (offered (all_seen seen es))))
              shown (run-accounts (all_seen seen es) (view s)),
        )
