-- ===== src/Flow/Manager/Windows.antt =====
-- The windows of streams and connection together: the connection counts what its streams receive.
use mpquic_sbd.Base.{
  ℕ, ◌+◌, ◌-◌, ◌^◌, ◌≤◌, ◌<◌, ◌≡◌, List, [], ◌∷◌, none, some, ltb, max, min, ap, ap₂, subst,
  if◌then◌else◌, arith, ok,
}
use mpquic_sbd.Flow.Controller.{
  ConnectionParameters, FlowController, send_window_size, update_highest_received,
  increment_highest_received, check_flow_control_violation, add_bytes_sent, get_send_window,
}
use mpquic_sbd.Flow.Manager.{
  Manager, FlowError, Outcome, get_flow_controller, put, account, reset_stream, update_highest,
  fails_with, succeeds, manager_add_bytes_sent, manager_send_window_size,
}

-- What a stream has received, as far as the connection counts it.
abbrev pub counted : FlowController → ℕ
counted c = if c.contributes_to_connection then c.highest_received else 0

unfoldable pub contributed : List (ℕ × FlowController) → ℕ
contributed [] = 0
contributed ((id, c) ∷ rest) = counted c + contributed rest

contributed-put :
    (id : ℕ) (c new : FlowController) (streams : List (ℕ × FlowController))
    → get_flow_controller id streams ≡ some c
    → contributed (put id new streams) + counted c ≡ contributed streams + counted new
unfolding contributed get_flow_controller put
contributed-put id c new [] h = cc
contributed-put id c new ((key, old) ∷ rest) h = ground (arith, contributed-put id c new rest)

account_counts :
    (m : Manager) (id : ℕ) (c new : FlowController) (increment : ℕ)
    → get_flow_controller id m.streams ≡ some c
    → new.contributes_to_connection ≡ c.contributes_to_connection
    → new.highest_received ≡ c.highest_received + increment
    → m.connection.highest_received + increment < 2 ^ 64
    → (account m id new increment).error ≡ none
    → let after = (account m id new increment).manager in
      (after.connection.highest_received + contributed m.streams
        ≡ m.connection.highest_received + contributed after.streams)
      × (new.highest_received ≤ new.receive_window)
      × ((if c.contributes_to_connection then after.connection.highest_received else 0)
          ≤ after.connection.receive_window)
unfolding account check_flow_control_violation increment_highest_received
account_counts m id c new increment found same grown fits fine =
    ground (arith, contributed-put id c new m.streams found)

update_highest_received_counts :
    (c : FlowController) (offset : ℕ)
    → let r = update_highest_received c offset in
      (r.controller.contributes_to_connection ≡ c.contributes_to_connection)
      × (r.controller.highest_received ≡ c.highest_received + r.increment)
      × (r.increment ≤ offset)
      × (r.controller.highest_received ≡ max c.highest_received offset)
      × (r.controller.receive_window ≡ c.receive_window)
      × (r.smaller_byte_offset ≡ ltb offset c.highest_received)
unfolding update_highest_received
update_highest_received_counts c offset = ground arith

-- If UpdateHighestReceived accepts an offset for a stream that the manager has, and the connection's
-- count cannot wrap, then the connection's highest received offset has grown by as much as those of
-- the contributing streams together, the offset is within the stream's receive window and, if the
-- stream contributes to the connection, the connection's offset is within the connection's window.
pub update_highest_counts :
    (m : Manager) (id offset : ℕ) (c : FlowController)
    → get_flow_controller id m.streams ≡ some c
    → m.connection.highest_received + offset < 2 ^ 64
    → (update_highest m id offset).error ≡ none
    → let after = (update_highest m id offset).manager in
      (after.connection.highest_received + contributed m.streams
        ≡ m.connection.highest_received + contributed after.streams)
      × (max c.highest_received offset ≤ c.receive_window)
      × ((if c.contributes_to_connection then after.connection.highest_received else 0)
          ≤ after.connection.receive_window)
unfolding update_highest
update_highest_counts m id offset c found fits =
    let r = update_highest_received c offset in
    let (same, grown, small, top, window, smaller) = update_highest_received_counts c offset in
    let fits' : m.connection.highest_received + r.increment < 2 ^ 64 = omega arith in
    rw (update_highest, found)
      (λ fine.
        let (counts, within, overall) =
          account_counts m id c r.controller r.increment found same grown fits' fine in
        (counts, subst (λ w. w) (ap₂ (λ x y. x ≤ y) top window) within, overall))

-- If ResetStream accepts an offset for a stream that the manager has, and the connection's count
-- cannot wrap, then the offset is not below what the stream has received and is within its receive
-- window, and the connection's highest received offset has grown by as much as those of the
-- contributing streams together.
pub reset_stream_counts :
    (m : Manager) (id offset : ℕ) (c : FlowController)
    → get_flow_controller id m.streams ≡ some c
    → m.connection.highest_received + offset < 2 ^ 64
    → (reset_stream m id offset).error ≡ none
    → let after = (reset_stream m id offset).manager in
      (after.connection.highest_received + contributed m.streams
        ≡ m.connection.highest_received + contributed after.streams)
      × (c.highest_received ≤ offset)
      × (offset ≤ c.receive_window)
unfolding reset_stream
reset_stream_counts m id offset c found fits =
    let r = update_highest_received c offset in
    let (same, grown, small, top, window, smaller) = update_highest_received_counts c offset in
    rw (reset_stream, found)
      (ground (arith, account_counts m id c r.controller r.increment found same grown))

send_window_size-add_bytes_sent :
    (params : ConnectionParameters) (c : FlowController) (n : ℕ)
    → n ≤ send_window_size params c
    → 0 < n
    → c.bytes_sent + n < 2 ^ 64
    → (send_window_size params (add_bytes_sent c n) ≡ send_window_size params c - n)
      × ((add_bytes_sent c n).bytes_sent ≤ get_send_window params (add_bytes_sent c n))
      × ((add_bytes_sent c n).contributes_to_connection ≡ c.contributes_to_connection)
unfolding send_window_size add_bytes_sent get_send_window
send_window_size-add_bytes_sent params c n within pos fits = ground arith

get_flow_controller-put :
    (id : ℕ) (c new : FlowController) (streams : List (ℕ × FlowController))
    → get_flow_controller id streams ≡ some c
    → get_flow_controller id (put id new streams) ≡ some new
unfolding get_flow_controller put
get_flow_controller-put id c new [] h = cc
get_flow_controller-put id c new ((key, old) ∷ rest) h =
    ground (arith, get_flow_controller-put id c new rest)

manager_add_bytes_sent-found :
    (m : Manager) (id n : ℕ) (c : FlowController)
    → get_flow_controller id m.streams ≡ some c
    → (manager_add_bytes_sent m id n).manager ≡ record {
      streams = put id (add_bytes_sent c n) m.streams;
      connection =
          if c.contributes_to_connection then add_bytes_sent m.connection n else m.connection;
    }
unfolding manager_add_bytes_sent
manager_add_bytes_sent-found m id n c found =
    ap (λ o. o.manager)
      (ap
        (λ o. elim o as (λ _. Outcome) [
          | none ↦ fails_with m FlowError.map_access
          | some old ↦ succeeds record {
            streams = put id (add_bytes_sent old n) m.streams;
            connection =
                if old.contributes_to_connection
                then add_bytes_sent m.connection n
                else m.connection;
          }
        ])
        found)

unfoldable smaller_window : ConnectionParameters → Manager → FlowController → ℕ
smaller_window params m c =
    if c.contributes_to_connection
    then min (send_window_size params c) (send_window_size params m.connection)
    else send_window_size params c

manager_send_window_size-found :
    (params : ConnectionParameters) (m : Manager) (id : ℕ) (c : FlowController)
    → get_flow_controller id m.streams ≡ some c
    → manager_send_window_size params m id ≡ ok (smaller_window params m c)
unfolding manager_send_window_size smaller_window
manager_send_window_size-found params m id c found =
    rw (manager_send_window_size, found) (ground arith)

-- If SendWindowSize gives a size for a stream and at least one and at most that many bytes are then
-- recorded with AddBytesSent, where no counter wraps, SendWindowSize gives the size less those bytes.
-- If the stream contributes to the connection, the connection has sent no more than its window.
pub send_window_size_respected :
    (params : ConnectionParameters) (m : Manager) (id n size : ℕ) (c : FlowController)
    → get_flow_controller id m.streams ≡ some c
    → manager_send_window_size params m id ≡ ok size
    → n ≤ size
    → 0 < n
    → c.bytes_sent + n < 2 ^ 64
    → m.connection.bytes_sent + n < 2 ^ 64
    → let after = (manager_add_bytes_sent m id n).manager in
      (manager_send_window_size params after id ≡ ok (size - n))
      × ((if c.contributes_to_connection then after.connection.bytes_sent else 0)
          ≤ get_send_window params after.connection)
unfolding smaller_window
send_window_size_respected params m id n size c found window within pos fits fits_connection =
    let sent = manager_add_bytes_sent-found m id n c found in
    let after = (manager_add_bytes_sent m id n).manager in
    ground (
      arith,
      sent,
      window,
      manager_send_window_size-found params m id c found,
      manager_send_window_size-found params after id (add_bytes_sent c n),
      get_flow_controller-put id c (add_bytes_sent c n) m.streams found,
      send_window_size-add_bytes_sent params c n,
      send_window_size-add_bytes_sent params m.connection n,
    )
