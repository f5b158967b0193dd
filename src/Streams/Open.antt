-- ===== src/Streams/Open.antt =====
-- quic-go/streams_map.go: the streams of a session, by their ids. The map is an association list; each
-- method holds the mutex, and the waits on conditions are results.
pub mod Iteration
pub mod Visited
pub mod Ids
pub mod Counted
pub mod Opening
pub mod Reachable
use mpquic_sbd.Base.{
  ℕ, zero, suc, ◌+◌, ◌-◌, ◌*◌, ◌/◌, ◌%◌, ◌^◌, Bool, true, false, not, ◌&&◌, ◌||◌, List, [], ◌∷◌,
  ◌++◌, Option, none, some, Result, ok, err, ltb, leb, ◌==◌, length, get_elem?, if◌then◌else◌, map,
  ◌≡◌,
}

pub data Perspective : Type 0 where
  server client : Perspective

abbrev pub is_server : Perspective → Bool
is_server server = true
is_server client = false

-- Whether the ids of the session's own streams are even is their parity.
abbrev pub is_own : Perspective → ℕ → Bool
is_own pers id = if is_server pers then id % 2 == 0 else not (id % 2 == 0)

pub data StreamsError : Type 0 where
  map_access too_many_open_streams invalid_stream_id : StreamsError
  no_such_stream index_out_of_range : StreamsError
  closed callback_error : ℕ → StreamsError

abbrev pub max_new_stream_id_delta : ℕ
max_new_stream_id_delta = 4 * 100

abbrev pub u32 : ℕ → ℕ
u32 n = n % 2 ^ 32

-- What the map needs of streams: the function that makes one, the id that it then has, and Cancel.
pub record StreamType : Type 1 where
  pub Stream : Type 0
  pub new_stream : ℕ → Stream
  pub stream_id : Stream → ℕ
  pub cancel : ℕ → Stream → Stream
  pub stream_id-new_stream : (id : ℕ) → stream_id (new_stream id) ≡ id

unfoldable pub find_stream : {S : Type 0} → ℕ → List (ℕ × S) → Option S
find_stream id [] = none
find_stream id ((key, s) ∷ rest) = if id == key then some s else find_stream id rest

unfoldable pub delete_stream : {S : Type 0} → ℕ → List (ℕ × S) → List (ℕ × S)
delete_stream id [] = []
delete_stream id ((key, s) ∷ rest) =
    let later = delete_stream id rest in if id == key then later else (key, s) ∷ later

-- The list without the first `id`, and the index of it.
unfoldable pub remove_open : ℕ → List ℕ → List ℕ
remove_open id [] = []
remove_open id (s ∷ rest) = if s == id then rest else s ∷ remove_open id rest

unfoldable pub is_before : ℕ → List ℕ → ℕ → Bool
is_before id [] index = false
is_before id (s ∷ rest) zero = false
is_before id (s ∷ rest) (suc index) = if s == id then true else is_before id rest index

unfoldable pub is_open : ℕ → List ℕ → Bool
is_open id [] = false
is_open id (s ∷ rest) = if id == s then true else is_open id rest

module _ (t : StreamType) where
  pub record StreamsMap : Type 0 where
    pub perspective : Perspective
    pub streams : List (ℕ × t.Stream)
    pub open_streams : List ℕ
    pub round_robin_index : ℕ
    pub next_stream : ℕ
    pub highest_stream_opened_by_peer : ℕ
    pub close_err : Option ℕ
    pub next_stream_to_accept : ℕ
    pub num_outgoing_streams : ℕ
    pub num_incoming_streams : ℕ

  unfoldable pub new_streams_map : Perspective → StreamsMap
  new_streams_map pers = record {
    perspective = pers;
    streams = [];
    open_streams = [];
    round_robin_index = 0;
    next_stream = if is_server pers then 2 else 1;
    highest_stream_opened_by_peer = 0;
    close_err = none;
    next_stream_to_accept = if is_server pers then 1 else 2;
    num_outgoing_streams = 0;
    num_incoming_streams = 0;
  }

  -- The callers ignore the error of a stream that exists.
  unfoldable pub put_stream : StreamsMap → t.Stream → StreamsMap
  put_stream m s = elim (find_stream (t.stream_id s) m.streams) [
    | some _ ↦ m
    | none ↦ record m {
      streams = m.streams ++ ((t.stream_id s, s) ∷ []);
      open_streams = m.open_streams ++ (t.stream_id s ∷ []);
    }
  ]

  -- `max_incoming` is what the connection's parameters give.
  unfoldable pub open_remote_stream : ℕ → StreamsMap → ℕ → Result StreamsError StreamsMap
  open_remote_stream max_incoming m id =
      let highest = m.highest_stream_opened_by_peer in
      let counted : StreamsMap =
        if is_server m.perspective
        then record m { num_incoming_streams = u32 (m.num_incoming_streams + 1) }
        else record m { num_outgoing_streams = u32 (m.num_outgoing_streams + 1) } in
      if leb max_incoming m.num_incoming_streams
      then err too_many_open_streams
      else if ltb (u32 (id + max_new_stream_id_delta)) highest
      then err invalid_stream_id
      else ok (
          put_stream
            (record counted {
              highest_stream_opened_by_peer = if ltb highest id then id else highest;
            })
            (t.new_stream id))

  unfoldable pub open_stream_impl : ℕ → StreamsMap → Result StreamsError (t.Stream × StreamsMap)
  open_stream_impl max_outgoing m =
      let counted : StreamsMap =
        if is_server m.perspective
        then record m { num_outgoing_streams = u32 (m.num_outgoing_streams + 1) }
        else record m { num_incoming_streams = u32 (m.num_incoming_streams + 1) } in
      if leb max_outgoing m.num_outgoing_streams
      then err too_many_open_streams
      else ok (
        t.new_stream m.next_stream,
        put_stream (record counted { next_stream = u32 (m.next_stream + 2) })
            (t.new_stream m.next_stream),
      )

  unfoldable pub open_stream : ℕ → StreamsMap → Result StreamsError (t.Stream × StreamsMap)
  open_stream max_outgoing m = elim m.close_err [
    | some e ↦ err (closed e)
    | none ↦ open_stream_impl max_outgoing m
  ]

  -- A result with the map as it is: a call that fails half way has opened streams.
  pub record Opened : Type 0 where
    pub after : StreamsMap
    pub result : Result StreamsError (Option t.Stream)

  -- The loop of GetOrOpenStream, for at most that many rounds.
  unfoldable pub open_up_to : ℕ → ℕ → ℕ → ℕ → StreamsMap → Opened
  open_up_to max_incoming id zero sid m = record {
    after = m;
    result = ok (find_stream id m.streams);
  }
  open_up_to max_incoming id (suc n) sid m = elim (open_remote_stream max_incoming m sid) [
    | err e ↦ record { after = m; result = err e }
    | ok next ↦ open_up_to max_incoming id n (u32 (sid + 2)) next
  ]

  -- The rounds until `sid` has passed `id`, and the one round after that where it has wrapped around to
  -- the lowest ids: that one fails, since they are far below the highest one.
  abbrev pub rounds : ℕ → ℕ → ℕ
  rounds id sid = (id + 2 - sid) / 2 + (if leb (2 ^ 32) (id + 2) then 1 else 0)

  -- The first stream that is opened.
  abbrev pub first_sid : StreamsMap → ℕ
  first_sid m =
      let sid = u32 (m.highest_stream_opened_by_peer + 2) in
      if sid == 2 && is_server m.perspective then 1 else sid

  unfoldable pub get_or_open_stream : ℕ → StreamsMap → ℕ → Opened
  get_or_open_stream max_incoming m id =
      let opened = open_up_to max_incoming id (rounds id (first_sid m)) (first_sid m) m in
      elim (find_stream id m.streams) [
        | some s ↦ record { after = m; result = ok (some s) }
        | none ↦
            if is_own m.perspective id
            then (if leb id m.next_stream
                then record { after = m; result = ok none }
                else record { after = m; result = err invalid_stream_id })
            else if leb id m.highest_stream_opened_by_peer
            then record { after = m; result = ok none }
            else opened
      ]

  -- AcceptStream; `none` says that it waits.
  unfoldable pub accept_stream : StreamsMap → Option (Result StreamsError t.Stream × StreamsMap)
  accept_stream m = elim m.close_err [
    | some e ↦ some (err (closed e), m)
    | none ↦ elim (find_stream m.next_stream_to_accept m.streams) [
      | none ↦ none
      | some s ↦ some (ok s, record m { next_stream_to_accept = u32 (m.next_stream_to_accept + 2) })
    ]
  ]

  unfoldable pub remove_stream : StreamsMap → ℕ → Result StreamsError StreamsMap
  remove_stream m id =
      let counted : StreamsMap =
        if id % 2 == 0
        then record m { num_outgoing_streams = u32 (m.num_outgoing_streams + (2 ^ 32 - 1)) }
        else record m { num_incoming_streams = u32 (m.num_incoming_streams + (2 ^ 32 - 1)) } in
      elim (find_stream id m.streams) [
        | none ↦ err no_such_stream
        | some _ ↦ ok record counted {
          open_streams = remove_open id m.open_streams;
          round_robin_index =
              if is_before id m.open_streams m.round_robin_index
              then m.round_robin_index - 1
              else m.round_robin_index;
          streams = delete_stream id m.streams;
        }
      ]

  -- OpenStreamSync; `none` says that it waits for a stream to be removed.
  unfoldable pub open_stream_sync :
      ℕ → StreamsMap → Option (Result StreamsError (t.Stream × StreamsMap))
  open_stream_sync max_outgoing m = elim (open_stream max_outgoing m) [
    | ok opened ↦ some (ok opened)
    | err too_many_open_streams ↦ none
    | err e ↦ some (err e)
  ]

  unfoldable pub cancel_open : ℕ → List ℕ → List (ℕ × t.Stream) → List (ℕ × t.Stream)
  cancel_open e opened [] = []
  cancel_open e opened ((id, s) ∷ rest) =
      (id, if is_open id opened then t.cancel e s else s) ∷ cancel_open e opened rest

  unfoldable pub close_with_error : StreamsMap → ℕ → StreamsMap
  close_with_error m e = record m {
    close_err = some e;
    streams = cancel_open e m.open_streams m.streams;
  }
