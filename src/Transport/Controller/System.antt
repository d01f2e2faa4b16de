-- ===== src/Transport/Controller/System.antt =====
-- The invariant of the adapter's system of commands and reader in examples/embassy/src/transport.rs.
use mathlib.Core.List.{append-nil}
use mathlib.Core.Path.{subst}
use stm32wb_hci.Prelude.{
  ℕ, ◌≡◌, refl, sym, ◌∙◌, ap, Bool-cases, inl, inr, Bool, true, false, Option, none, some, List, [],
  ◌∷◌, ◌++◌,
}
use stm32wb_hci.Transport.Controller.Api.{BtHci, BtHciLaws, SignalApi, SignalLaws}
use stm32wb_hci.Transport.Controller.{
  EvtBox, Controller, Turn, returned, failed, continues, drop_guard, grant_slot, grab_slot,
  begin_turn, read_turn,
}
use stm32wb_hci.Transport.Controller.Invariant.{
  Signalled, Blocks, managed_one, managed, managed-append, managed-one, accounted, drop_guard-eq,
  begin_turn-eq,
}
use stm32wb_hci.Transport.Controller.Reader.{Keeps, read_turn-Keeps}
use stm32wb_hci.Transport.Controller.Commands.{
  granted, waiting, answered, Command, System, after_turn,
}

abbrev pub AnswersOwn : Command → Type 0
AnswersOwn command = elim command.progress [
  | granted ↦ Unit
  | waiting ↦ Unit
  | answered r ↦ r.cmd_opcode ≡ command.opcode
]

-- A free slot has no command; a taken one has one, whose opcode it holds and whose answer is its own.
abbrev pub Exclusive : Option ℕ → List Command → Type 0
Exclusive none [] = Unit
Exclusive none (command ∷ commands) = ⊥
Exclusive (some opcode) [] = ⊥
Exclusive (some opcode) (command ∷ []) = (opcode ≡ command.opcode) × AnswersOwn command
Exclusive (some opcode) (command ∷ command' ∷ commands) = ⊥

-- While `read` waits for a packet, nothing is pending.
abbrev pub Idle : Bool → Option EvtBox → Type 0
Idle false pending = Unit
Idle true none = Unit
Idle true (some evt) = ⊥

pub record IsInvariant {S : Type 0} (api : SignalApi S (Option EvtBox)) (bt : BtHci)
    (s : System api bt) : Type 0 where
  pub exclusive : Exclusive s.controller.slot s.commands
  pub signalled : Signalled bt s.controller.slot (api.holds s.controller.signal)
  pub blocks : Blocks s.controller.cc_no_status s.controller.pending_evt
  pub idle : Idle s.is_reading s.controller.pending_evt
  pub buffers : accounted s.controller ≡ managed s.received

-- A taken slot has the one command that is there.
pub only_command :
    (slot : Option ℕ) (before : List Command) (command : Command) (behind commands : List Command)
    → commands ≡ before ++ (command ∷ behind)
    → Exclusive slot commands
    → (slot ≡ some command.opcode) × AnswersOwn command × (before ≡ []) × (behind ≡ [])
only_command slot before command behind commands e h = only slot before behind (rw e at h)
  where
    only :
        (slot : Option ℕ) (before behind : List Command)
        → Exclusive slot (before ++ (command ∷ behind))
        → (slot ≡ some command.opcode) × AnswersOwn command × (before ≡ []) × (behind ≡ [])
    only none [] behind h = elim h [ ]
    only none (x ∷ before) behind h = elim h [ ]
    only (some opcode) [] [] h = (rw h.0 refl, h.1, refl, refl)
    only (some opcode) [] (x ∷ behind) h = elim h [ ]
    only (some opcode) (x ∷ []) behind h = elim h [ ]
    only (some opcode) (x ∷ y ∷ before) behind h = elim h [ ]

Exclusive-none : (commands : List Command) → Exclusive none commands → commands ≡ []
Exclusive-none [] h = refl
Exclusive-none (command ∷ commands) h = elim h [ ]

pub Signalled-none : (bt : BtHci) (o : Option (Option EvtBox)) → Signalled bt none o → o ≡ none
Signalled-none bt none h = refl
Signalled-none bt (some value) h = elim h [ ]

Idle-true : (pending : Option EvtBox) → Idle true pending → pending ≡ none
Idle-true none h = refl
Idle-true (some evt) h = elim h [ ]

module _ {S : Type 0} (api : SignalApi S (Option EvtBox)) (bt : BtHci) (laws : BtHciLaws bt)
    (signal_laws : SignalLaws api) where
  grant_slot-some :
      (self self' : Controller S) (opcode : ℕ) (slot : Option ℕ)
      → self.slot ≡ slot
      → grant_slot api self opcode slot ≡ some self'
      → (self.slot ≡ none) × (self' ≡ record self { slot = some opcode })
  grant_slot-some self self' opcode (some other) s e = cc
  grant_slot-some self self' opcode none s e = elim (Bool-cases self.cc_no_status) [
    | inl busy ↦ cc
    | inr free ↦ (s, cc)
  ]

  module _ (s : System api bt) (inv : IsInvariant api bt s) where
    pub grants-IsInvariant :
        (opcode : ℕ) (self : Controller S)
        → grab_slot api s.controller opcode ≡ some self
        → IsInvariant api bt (record s {
          controller = self;
          commands = s.commands ++ (record { opcode = opcode; progress = granted } ∷ []);
        })
    unfolding grab_slot
    grants-IsInvariant opcode self e =
        let (free, made) = grant_slot-some s.controller self opcode s.controller.slot refl e in
        let no_command =
          Exclusive-none s.commands (subst (λ o. Exclusive o s.commands) free inv.exclusive) in
        let no_signal =
          Signalled-none bt (api.holds s.controller.signal)
            (subst (λ o. Signalled bt o (api.holds s.controller.signal)) free inv.signalled) in
        rw (made, no_command)
          (record {
            exclusive = (refl, tt);
            signalled = rw no_signal tt;
            blocks = inv.blocks;
            idle = inv.idle;
            buffers = inv.buffers;
          })

    pub writes-IsInvariant :
        (before : List Command) (opcode : ℕ) (behind : List Command)
        → s.commands ≡ before ++ (record { opcode = opcode; progress = granted } ∷ behind)
        → IsInvariant api bt (record s {
          commands = before ++ (record { opcode = opcode; progress = waiting } ∷ behind);
        })
    writes-IsInvariant before opcode behind e =
        let (taken, own, b, a) =
          only_command s.controller.slot before _ behind s.commands e inv.exclusive in
        record {
          exclusive =
              rw (b, a)
                (subst (λ o. Exclusive o (record { opcode = opcode; progress = waiting } ∷ []))
                  (sym taken) (refl, tt));
          signalled = inv.signalled;
          blocks = inv.blocks;
          idle = inv.idle;
          buffers = inv.buffers;
        }

    -- Dropping the guard of the one command.
    pub guard-IsInvariant :
        (self : Controller S)
        → Signalled bt self.slot (api.holds self.signal)
        → Blocks self.cc_no_status self.pending_evt
        → Idle s.is_reading self.pending_evt
        → accounted self ≡ managed s.received
        → IsInvariant api bt (record s { controller = drop_guard api self; commands = [] })
    guard-IsInvariant self signalled blocks idle buffers =
        rw (drop_guard-eq api bt laws self signalled) (record {
          exclusive = tt;
          signalled = rw (signal_laws.holds-reset self.signal) tt;
          blocks = blocks;
          idle = idle;
          buffers = buffers;
        })

    pub drops-IsInvariant :
        (before : List Command) (command : Command) (behind : List Command)
        → s.commands ≡ before ++ (command ∷ behind)
        → IsInvariant api bt
            (record s { controller = drop_guard api s.controller; commands = before ++ behind })
    drops-IsInvariant before command behind e =
        let (taken, own, b, a) =
          only_command s.controller.slot before command behind s.commands e inv.exclusive in
        rw (b, a) (guard-IsInvariant s.controller inv.signalled inv.blocks inv.idle inv.buffers)

    pub begins-IsInvariant :
        s.is_reading ≡ false
        → IsInvariant api bt
            (record s { controller = begin_turn api s.controller; is_reading = true })
    begins-IsInvariant e = rw (begin_turn-eq api s.controller) (record {
      exclusive = inv.exclusive;
      signalled = inv.signalled;
      blocks = tt;
      idle = tt;
      buffers = append-nil _ ∙ inv.buffers;
    })

    pub stops-IsInvariant : IsInvariant api bt (record s { is_reading = false })
    stops-IsInvariant = record {
      exclusive = inv.exclusive;
      signalled = inv.signalled;
      blocks = inv.blocks;
      idle = tt;
      buffers = inv.buffers;
    }

    turn-IsInvariant :
        (self : Controller S) (turn : Turn) (evt : EvtBox)
        → Keeps api bt s.controller self (managed_one evt)
        → IsInvariant api bt (after_turn api bt self turn s.commands (s.received ++ (evt ∷ [])))
    turn-IsInvariant self turn evt k =
        let exclusive = subst (λ o. Exclusive o s.commands) (sym k.same_slot) inv.exclusive in
        let buffers : accounted self ≡ managed (s.received ++ (evt ∷ [])) =
          k.adds
          ∙ ap (λ l. l ++ managed_one evt) inv.buffers
          ∙ sym (
              managed-append s.received (evt ∷ [])
              ∙ ap (λ l. managed s.received ++ l) (managed-one evt)) in
        elim turn
          as (λ t.
            IsInvariant api bt (after_turn api bt self t s.commands (s.received ++ (evt ∷ [])))) [
              | returned pkt ↦ record {
                exclusive = exclusive;
                signalled = k.signalled;
                blocks = k.blocks;
                idle = tt;
                buffers = buffers;
              }
              | failed e ↦ record {
                exclusive = exclusive;
                signalled = k.signalled;
                blocks = k.blocks;
                idle = tt;
                buffers = buffers;
              }
              | continues ↦ rw (begin_turn-eq api self) (record {
                exclusive = exclusive;
                signalled = k.signalled;
                blocks = tt;
                idle = tt;
                buffers = append-nil _ ∙ buffers;
              })
            ]

    pub receives-IsInvariant :
        (evt : EvtBox)
        → s.is_reading ≡ true
        → IsInvariant api bt (
            after_turn api bt
              (read_turn api bt s.controller evt).0
              (read_turn api bt s.controller evt).1
              s.commands
              (s.received ++ (evt ∷ [])))
    receives-IsInvariant evt e =
        let idle =
          Idle-true s.controller.pending_evt
            (subst (λ b. Idle b s.controller.pending_evt) e inv.idle) in
        turn-IsInvariant (read_turn api bt s.controller evt).0 (read_turn api bt s.controller evt).1
          evt
          (read_turn-Keeps api bt laws signal_laws s.controller evt idle inv.signalled inv.blocks)
