-- ===== src/Ack/Ecn.antt =====
-- internal/ackhandler/ecn.go: the validation of explicit congestion notification on a path. An invalid
-- packet number is `none`. The tracer and the logger are not modelled.
pub mod Path
pub mod Safety
pub mod Tests
use x_fec.Base.{
  ℕ, ◌+◌, ◌-◌, ◌%◌, ◌^◌, List, [], ◌∷◌, Bool, true, false, ltb, leb, ◌==◌, ◌&&◌, ◌||◌, not,
  if◌then◌else◌, Option, none, some, Result, ok, err,
}

pub data EcnState : Type 0 where
  initial testing unknown capable failed : EcnState

-- internal/protocol/protocol.go
pub data Ecn : Type 0 where
  unsupported non ect1 ect0 ce : Ecn

-- The panics of `SentPacket`.
pub data Panic : Type 0 where
  not_failed unexpected_marking : Panic

abbrev pub num_ecn_testing_packets : ℕ
num_ecn_testing_packets = 10

pub record EcnTracker : Type 0 where
  pub state : EcnState
  -- uint8
  pub num_sent_testing : ℕ
  pub num_lost_testing : ℕ
  pub first_testing_packet : Option ℕ
  pub last_testing_packet : Option ℕ
  pub first_capable_packet : Option ℕ
  pub num_sent_ect0 : ℕ
  pub num_sent_ect1 : ℕ
  pub num_acked_ect0 : ℕ
  pub num_acked_ect1 : ℕ
  pub num_acked_ecnce : ℕ

abbrev pub new_ecn_tracker : EcnTracker
new_ecn_tracker = record {
  state = initial;
  num_sent_testing = 0;
  num_lost_testing = 0;
  first_testing_packet = none;
  last_testing_packet = none;
  first_capable_packet = none;
  num_sent_ect0 = 0;
  num_sent_ect1 = 0;
  num_acked_ect0 = 0;
  num_acked_ect1 = 0;
  num_acked_ecnce = 0;
}

-- `if field == InvalidPacketNumber { field = pn }`
abbrev pub or_first : Option ℕ → ℕ → Option ℕ
or_first none pn = some pn
or_first (some n) pn = some n

-- `SentPacket` behind the counters.
unfoldable pub note_sent : EcnState → EcnTracker → ℕ → EcnTracker
note_sent capable e pn = record e { first_capable_packet = or_first e.first_capable_packet pn }
note_sent testing e pn =
    let e' : EcnTracker = record e {
      num_sent_testing = (e.num_sent_testing + 1) % 2 ^ 8;
      first_testing_packet = or_first e.first_testing_packet pn;
    } in
    if leb num_ecn_testing_packets (e.num_sent_ect0 + e.num_sent_ect1)
    then record e' { state = unknown; last_testing_packet = some pn }
    else e'
note_sent initial e pn = e
note_sent unknown e pn = e
note_sent failed e pn = e

unfoldable pub sent_unsupported : EcnState → EcnTracker → ℕ → Result Panic EcnTracker
unfolding note_sent
sent_unsupported failed e pn = ok (note_sent e.state e pn)
sent_unsupported initial e pn = err not_failed
sent_unsupported testing e pn = err not_failed
sent_unsupported unknown e pn = err not_failed
sent_unsupported capable e pn = err not_failed

unfoldable pub sent_packet : EcnTracker → ℕ → Ecn → Result Panic EcnTracker
unfolding note_sent sent_unsupported
sent_packet e pn non = ok e
sent_packet e pn ect0 = ok (note_sent e.state (record e { num_sent_ect0 = e.num_sent_ect0 + 1 }) pn)
sent_packet e pn ect1 = ok (note_sent e.state (record e { num_sent_ect1 = e.num_sent_ect1 + 1 }) pn)
sent_packet e pn unsupported = sent_unsupported e.state e pn
sent_packet e pn ce = err unexpected_marking

-- The recursive call of `Mode` is made in the state `testing`.
unfoldable pub mode_in : EcnState → EcnTracker → EcnTracker × Ecn
mode_in initial e = (record e { state = testing }, ect0)
mode_in testing e = (e, ect0)
mode_in capable e = (e, ect0)
mode_in unknown e = (e, non)
mode_in failed e = (e, non)

unfoldable pub mode : EcnTracker → EcnTracker × Ecn
unfolding mode_in
mode e = mode_in e.state e

abbrev pub is_below : ℕ → Option ℕ → Bool
is_below pn none = true
is_below pn (some n) = ltb pn n

unfoldable pub is_testing_packet : EcnTracker → ℕ → Bool
is_testing_packet e pn = elim e.first_testing_packet [
  | none ↦ false
  | some first ↦
      leb first pn && elim e.last_testing_packet [ none ↦ true | some last ↦ leb pn last ]
]

-- A bound that is not set lets every number pass as below, but for the first.
unfoldable pub ecn_marking : EcnTracker → ℕ → Ecn
ecn_marking e pn =
    if is_below pn e.first_testing_packet
    then non
    else if is_below pn e.last_testing_packet
    then ect0
    else if is_below pn e.first_capable_packet
    then non
    else ect0

unfoldable pub fail_if_mangled : EcnTracker → EcnTracker
fail_if_mangled e =
    if ltb (e.num_acked_ecnce + e.num_lost_testing) (e.num_sent_ect0 + e.num_sent_ect1)
    then e
    else record e { state = failed }

-- `LostPacket` for a testing packet, by the state.
unfoldable pub lost_in : EcnState → EcnTracker → EcnTracker
unfolding fail_if_mangled
lost_in unknown e =
    let e' : EcnTracker = record e { num_lost_testing = (e.num_lost_testing + 1) % 2 ^ 8 } in
    if leb e'.num_sent_testing e'.num_lost_testing
    then record e' { state = failed }
    else fail_if_mangled e'
lost_in testing e = record e { num_lost_testing = (e.num_lost_testing + 1) % 2 ^ 8 }
lost_in initial e = e
lost_in capable e = e
lost_in failed e = e

unfoldable pub lost_packet : EcnTracker → ℕ → EcnTracker
unfolding lost_in
lost_packet e pn = if is_testing_packet e pn then lost_in e.state e else e

abbrev pub is_ect0 : Ecn → Bool
is_ect0 ect0 = true
is_ect0 unsupported = false
is_ect0 non = false
is_ect0 ect1 = false
is_ect0 ce = false

-- The loop that counts; no marking is ECT(1), so `ackedECT1` stays 0.
unfoldable pub acked_ect0 : EcnTracker → List ℕ → ℕ
acked_ect0 e [] = 0
acked_ect0 e (p ∷ ps) = (if is_ect0 (ecn_marking e p) then 1 else 0) + acked_ect0 e ps

unfoldable pub acked_testing_packet : EcnTracker → List ℕ → Bool
acked_testing_packet e [] = false
acked_testing_packet e (p ∷ ps) = is_testing_packet e p || acked_testing_packet e ps

-- The counts on an ACK frame.
pub record Counts : Type 0 where
  pub ect0 : ℕ
  pub ect1 : ℕ
  pub ecnce : ℕ

-- The five checks that make the validation fail. With `ackedECT1` 0 the check of the sum for ECT(1) is
-- that of no decrease.
unfoldable pub is_bogus : EcnTracker → List ℕ → Counts → Bool
is_bogus e packets c =
    ltb e.num_sent_ect0 c.ect0
    || ltb e.num_sent_ect1 c.ect1
    || (ltb 0 (acked_ect0 e packets) && c.ect0 == 0 && c.ect1 == 0 && c.ecnce == 0)
    || ltb c.ect0 e.num_acked_ect0
    || ltb c.ect1 e.num_acked_ect1
    || ltb c.ecnce e.num_acked_ecnce
    || ltb ((c.ect0 - e.num_acked_ect0) + (c.ecnce - e.num_acked_ecnce)) (acked_ect0 e packets)

abbrev pub is_unknown : EcnState → Bool
is_unknown unknown = true
is_unknown initial = false
is_unknown testing = false
is_unknown capable = false
is_unknown failed = false

abbrev pub is_failed : EcnState → Bool
is_failed failed = true
is_failed initial = false
is_failed testing = false
is_failed unknown = false
is_failed capable = false

abbrev pub is_capable : EcnState → Bool
is_capable capable = true
is_capable initial = false
is_capable testing = false
is_capable unknown = false
is_capable failed = false

abbrev pub is_open : EcnState → Bool
is_open testing = true
is_open unknown = true
is_open initial = false
is_open capable = false
is_open failed = false

-- The new state once the counts are accepted and the path is not mangled: the increases are those over
-- the counters before.
unfoldable pub confirm : EcnTracker → EcnTracker → List ℕ → Counts → EcnTracker
confirm old e packets c =
    if is_open e.state
      && acked_testing_packet e packets
      && (ltb 0 (c.ect0 - old.num_acked_ect0) || ltb 0 (c.ect1 - old.num_acked_ect1))
    then record e { state = capable }
    else e

unfoldable pub accept_counts : EcnTracker → Counts → EcnTracker
unfolding fail_if_mangled
accept_counts e c =
    let e' : EcnTracker = record e {
      num_acked_ect0 = c.ect0;
      num_acked_ect1 = c.ect1;
      num_acked_ecnce = c.ecnce;
    } in
    if is_unknown e.state then fail_if_mangled e' else e'

unfoldable pub handle_newly_acked : EcnTracker → List ℕ → Counts → EcnTracker × Bool
unfolding confirm accept_counts
handle_newly_acked e packets c =
    if is_failed e.state
    then (e, false)
    else if is_bogus e packets c
    then (record e { state = failed }, false)
    else let e' = accept_counts e c in
      if is_failed e'.state
      then (e', false)
      else let e'' = confirm e e' packets c in
        (e'', is_capable e''.state && ltb 0 (c.ecnce - e.num_acked_ecnce))
