-- ===== src/MailBus/Cycles.antt =====
-- orchestrator/mailbus.py: what the loop of a routing cycle gets to, and what stops it.
use agi_inspired.Prelude.{Bool, true, List, [], ◌∷◌, All, ◌≡◌, ◌≢◌, ◌⊎◌, inl, inr, refl, ap}
use agi_inspired.Prelude.Text.{Text}
use agi_inspired.MailBus.Message.{Message, type_error, validate_message}
use agi_inspired.MailBus.Files.{not_utf8, object, File, Mailboxes}
use agi_inspired.MailBus.Router.{
  Outcomes, Event, quarantined, hop_limit_terminated, backpressure_held, delivery_deferred,
  delivered_unlink_deferred, delivered, aborted, list_outbox_files, route_validated, route_content,
  route_one, after_one, route_all, route_cycle,
}
use agi_inspired.MailBus.Routed.{
  Routed, stays, put_aside, spoilt, waits, left_behind, arrives, is_idle, route_one-Routed,
}

Routed-not_terminated :
    (o : Outcomes) (f : File) (s : Mailboxes) (r : Mailboxes × Event)
    → Routed o f s r
    → r.1 ≢ hop_limit_terminated
Routed-not_terminated o f s _ (stays e idle) = λ h. cc (idle, ap is_idle h)
Routed-not_terminated o f s _ put_aside = λ h. cc
Routed-not_terminated o f s _ (spoilt c e) = λ h. cc
Routed-not_terminated o f s _ (waits m e room other) = other
Routed-not_terminated o f s _ (left_behind m e room other) = other
Routed-not_terminated o f s _ (arrives m room) = λ h. cc

-- A file that ends the cycle when it is read: bytes that are no UTF-8, or a message on which
-- the validation raises TypeError.
abbrev pub IsPoison : (Text → Bool) → File → Type 0
IsPoison is_iso f =
    (f.content ≡ not_utf8)
    ⊎ ((m : Message) × (f.content ≡ object m) × (validate_message is_iso m ≡ type_error))

module _ (is_iso : Text → Bool) where
  poison_aborts :
      (o : Outcomes) (f : File) (s : Mailboxes)
      → IsPoison is_iso f
      → route_one is_iso o s f true ≡ (s, aborted)
  unfolding route_one route_content
  poison_aborts o f s (inl e) = rw e refl
  poison_aborts o f s (inr (m, e, t)) = unfold route_validated in rw (e, t) refl

  -- The state after a number of cycles, each with what the operating system does in it.
  unfoldable pub cycles : List (File → Outcomes) → Mailboxes → Mailboxes
  cycles [] s = s
  cycles (os ∷ rest) s = cycles rest (route_cycle is_iso os s).0

  poison_cycle :
      (os : File → Outcomes) (f : File) (fs : List File) (s : Mailboxes)
      → IsPoison is_iso f
      → (os f).readable ≡ true
      → route_all is_iso os (f ∷ fs) s ≡ (s, aborted ∷ [])
  unfolding route_all after_one
  poison_cycle os f fs s p r = rw (r, poison_aborts (os f) f s p) refl

  -- If the first pending file in the order of agents and names is one whose bytes are no UTF-8, or
  -- one with a message whose `act` cannot be hashed, no number of routing cycles that
  -- read it changes anything: no message is delivered any more.
  pub cycles_blocked :
      (f : File) (fs : List File) (s : Mailboxes)
      → list_outbox_files s ≡ f ∷ fs
      → IsPoison is_iso f
      → (runs : List (File → Outcomes)) → All (λ os. (os f).readable ≡ true) runs
      → cycles runs s ≡ s
  unfolding cycles
  cycles_blocked f fs s first p [] r = refl
  cycles_blocked f fs s first p (os ∷ runs) r =
      let e : (route_cycle is_iso os s).0 ≡ s =
        unfold route_cycle in rw (first, poison_cycle os f fs s p r.0) refl in
      rw e (cycles_blocked f fs s first p runs r.1)

  after_one-events :
      (P : Event → Type 0) (r : Mailboxes × Event) (k : Mailboxes → Mailboxes × List Event)
      → P r.1
      → All P (k r.0).1
      → All P (after_one r k).1
  unfolding after_one
  after_one-events P (s, aborted) k p ps = (p, tt)
  after_one-events P (s, quarantined) k p ps = (p, ps)
  after_one-events P (s, hop_limit_terminated) k p ps = (p, ps)
  after_one-events P (s, backpressure_held) k p ps = (p, ps)
  after_one-events P (s, delivery_deferred) k p ps = (p, ps)
  after_one-events P (s, delivered_unlink_deferred) k p ps = (p, ps)
  after_one-events P (s, delivered) k p ps = (p, ps)

  none_terminated :
      (os : File → Outcomes) (fs : List File) (s : Mailboxes)
      → All (λ e. e ≢ hop_limit_terminated) (route_all is_iso os fs s).1
  unfolding route_all
  none_terminated os [] s = tt
  none_terminated os (f ∷ fs) s =
      let r = route_one is_iso (os f) s f (os f).readable in
      after_one-events (λ e. e ≢ hop_limit_terminated) r _
        (Routed-not_terminated (os f) f s r (route_one-Routed is_iso (os f) f s (os f).readable))
        (none_terminated os fs r.0)

  -- No routing cycle terminates a message for its hops: the validation before has refused it.
  pub route_cycle-hops :
      (os : File → Outcomes) (s : Mailboxes)
      → All (λ e. e ≢ hop_limit_terminated) (route_cycle is_iso os s).1
  unfolding route_cycle
  route_cycle-hops os s = none_terminated os (list_outbox_files s) s
