-- ===== src/ConnId/Manager.antt =====
-- conn_id_manager.go: the connection identifiers that the peer issued. What the callbacks are called with
-- is returned as a list of effects, and the random number that decides when to change the identifier is
-- an argument.
pub mod Queue
pub mod Safety
pub mod Tests
use x_fec.Base.{
  ℕ, ◌+◌, ◌*◌, ◌%◌, ◌^◌, List, [], ◌∷◌, ◌++◌, Bool, true, false, ltb, leb, ◌==◌, ◌&&◌, ◌||◌, not,
  if◌then◌else◌, Option, none, some, Result, ok, err, ◌>>=◌, length, max,
}
use x_fec.Wire.Connection.{NewConnectionIdFrame}

-- internal/protocol/params.go
abbrev pub max_active_connection_ids : ℕ
max_active_connection_ids = 4

abbrev pub packets_per_connection_id : ℕ
packets_per_connection_id = 10000

pub record NewConnId : Type 0 where
  pub sequence_number : ℕ
  pub connection_id : List ℕ
  pub stateless_reset_token : List ℕ

pub record ConnIdManager : Type 0 where
  pub queue : List NewConnId
  pub handshake_complete : Bool
  pub active_sequence_number : ℕ
  pub highest_retired : ℕ
  pub active_connection_id : List ℕ
  pub active_stateless_reset_token : Option (List ℕ)
  -- uint32
  pub packets_since_last_change : ℕ
  pub packets_until_change : ℕ

pub data ConnIdError : Type 0 where
  connection_id_limit conflicting_connection_ids conflicting_reset_tokens : ConnIdError
  -- The panics: an element of an empty list, and an initial identifier that was changed.
  no_element not_initial : ConnIdError

pub data Effect : Type 0 where
  queue_retire : ℕ → Effect
  add_reset_token remove_reset_token : List ℕ → Effect

abbrev pub Changed : Type 0
Changed = Result ConnIdError (ConnIdManager × List Effect)

abbrev pub same_bytes : List ℕ → List ℕ → Bool
same_bytes [] [] = true
same_bytes [] (y ∷ ys) = false
same_bytes (x ∷ xs) [] = false
same_bytes (x ∷ xs) (y ∷ ys) = x == y && same_bytes xs ys

abbrev pub new_conn_id_manager : List ℕ → ConnIdManager
new_conn_id_manager initial_dest_conn_id = record {
  queue = [];
  handshake_complete = false;
  active_sequence_number = 0;
  highest_retired = 0;
  active_connection_id = initial_dest_conn_id;
  active_stateless_reset_token = none;
  packets_since_last_change = 0;
  packets_until_change = 0;
}

-- The element with the same number must be the same.
unfoldable pub check_same :
    NewConnId → NewConnId → List NewConnId → Result ConnIdError (List NewConnId)
check_same el n rest =
    if not (same_bytes el.connection_id n.connection_id)
    then err conflicting_connection_ids
    else if not (same_bytes el.stateless_reset_token n.stateless_reset_token)
    then err conflicting_reset_tokens
    else ok (el ∷ rest)

unfoldable pub insert_in_middle : NewConnId → List NewConnId → Result ConnIdError (List NewConnId)
unfolding check_same
insert_in_middle n [] = ok []
insert_in_middle n (el ∷ rest) =
    let further = insert_in_middle n rest in
    if el.sequence_number == n.sequence_number
    then check_same el n rest
    else if ltb n.sequence_number el.sequence_number
    then ok (n ∷ el ∷ rest)
    else (further >>= λ r. ok (el ∷ r))

-- Whether the list is empty or its back has a lower number.
unfoldable pub goes_to_back : ℕ → List NewConnId → Bool
goes_to_back seq [] = true
goes_to_back seq (el ∷ []) = ltb el.sequence_number seq
goes_to_back seq (el ∷ x ∷ rest) = goes_to_back seq (x ∷ rest)

unfoldable pub add_connection_id : NewConnId → List NewConnId → Result ConnIdError (List NewConnId)
unfolding goes_to_back insert_in_middle
add_connection_id n queue =
    if goes_to_back n.sequence_number queue then ok (queue ++ n ∷ []) else insert_in_middle n queue

-- The elements in front whose number is too low, and the others.
unfoldable pub retire_queued : ℕ → List NewConnId → List Effect × List NewConnId
retire_queued prior [] = ([], [])
retire_queued prior (el ∷ rest) =
    let further = retire_queued prior rest in
    if leb prior el.sequence_number
    then ([], el ∷ rest)
    else (queue_retire el.sequence_number ∷ further.0, further.1)

abbrev pub remove_token : Option (List ℕ) → List Effect
remove_token none = []
remove_token (some t) = remove_reset_token t ∷ []

-- With the random number drawn, which is below the number of packets.
unfoldable pub update_connection_id : ℕ → ConnIdManager → Changed
update_connection_id draw h = elim h.queue [
  | [] ↦ err no_element
  | front ∷ rest ↦ ok (
    record {
      queue = rest;
      handshake_complete = h.handshake_complete;
      active_sequence_number = front.sequence_number;
      highest_retired = max h.highest_retired h.active_sequence_number;
      active_connection_id = front.connection_id;
      active_stateless_reset_token = some front.stateless_reset_token;
      packets_since_last_change = 0;
      packets_until_change = (5000 + draw) % 2 ^ 32;
    },
    (queue_retire h.active_sequence_number ∷ remove_token h.active_stateless_reset_token)
        ++ add_reset_token front.stateless_reset_token ∷ [],
  )
]

abbrev pub with_effects : List Effect → Changed → Changed
with_effects es (ok (h, fs)) = ok (h, es ++ fs)
with_effects es (err e) = err e

unfoldable pub of_frame : NewConnectionIdFrame → NewConnId
of_frame f = record {
  sequence_number = f.sequence_number;
  connection_id = f.connection_id;
  stateless_reset_token = f.stateless_reset_token;
}

-- The part of `add` behind the retirement of queued elements.
unfoldable pub add_new : ℕ → NewConnectionIdFrame → ConnIdManager → Changed
unfolding of_frame
add_new draw f h = do
  q ← add_connection_id (of_frame f) h.queue
  let h1 : ConnIdManager = record h { queue = q }
  if ltb h.active_sequence_number f.retire_prior_to
      then update_connection_id draw h1
      else ok (h1, [])

unfoldable pub add_frame : ℕ → NewConnectionIdFrame → ConnIdManager → Changed
unfolding retire_queued add_new
add_frame draw f h =
    let r = retire_queued f.retire_prior_to h.queue in
    let raises = ltb h.highest_retired f.retire_prior_to in
    let h1 : ConnIdManager = record h { queue = r.1; highest_retired = f.retire_prior_to } in
    let h2 : ConnIdManager = if raises then h1 else h in
    if ltb f.sequence_number h.active_sequence_number || ltb f.sequence_number h.highest_retired
    then ok (h, queue_retire f.sequence_number ∷ [])
    else with_effects (if raises then r.0 else [])
        (if f.sequence_number == h.active_sequence_number then ok (h2, []) else add_new draw f h2)

abbrev pub limited : Changed → Changed
limited (ok (h, es)) =
    if leb max_active_connection_ids (length h.queue) then err connection_id_limit else ok (h, es)
limited (err e) = err e

unfoldable pub add : ℕ → NewConnectionIdFrame → ConnIdManager → Changed
unfolding add_frame
add draw f h = limited (add_frame draw f h)

unfoldable pub add_from_preferred_address : List ℕ → List ℕ → ConnIdManager → Changed
add_from_preferred_address conn_id reset_token h = do
  q ←
      add_connection_id
        (record {
          sequence_number = 1;
          connection_id = conn_id;
          stateless_reset_token = reset_token;
        })
        h.queue
  ok (record h { queue = q }, [])

unfoldable pub close : ConnIdManager → List Effect
close h = remove_token h.active_stateless_reset_token

unfoldable pub change_initial_conn_id : List ℕ → ConnIdManager → Changed
change_initial_conn_id id h =
    if not (h.active_sequence_number == 0)
    then err not_initial
    else ok (record h { active_connection_id = id }, [])

unfoldable pub set_stateless_reset_token : List ℕ → ConnIdManager → Changed
set_stateless_reset_token token h =
    if not (h.active_sequence_number == 0)
    then err not_initial
    else ok (record h { active_stateless_reset_token = some token }, add_reset_token token ∷ [])

unfoldable pub sent_packet : ConnIdManager → ConnIdManager
sent_packet h = record h { packets_since_last_change = (h.packets_since_last_change + 1) % 2 ^ 32 }

unfoldable pub should_update_conn_id : ConnIdManager → Bool
should_update_conn_id h =
    h.handshake_complete
    && (ltb 0 (length h.queue) && h.active_sequence_number == 0
        || leb max_active_connection_ids (2 * length h.queue)
          && leb h.packets_until_change h.packets_since_last_change)

unfoldable pub get : ℕ → ConnIdManager → Changed
unfolding should_update_conn_id
get draw h = if should_update_conn_id h then update_connection_id draw h else ok (h, [])

unfoldable pub set_handshake_complete : ConnIdManager → ConnIdManager
set_handshake_complete h = record h { handshake_complete = true }
