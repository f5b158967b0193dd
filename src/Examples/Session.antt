-- ===== src/Examples/Session.antt =====
-- Runs of quic-go/packet_number_generator.go, quic-go/scheduler.go and quic-go/packet_packer.go.
use mpquic_sbd.Base.{
  ℕ, ◌≡◌, ◌⊎◌, refl, true, false, List, [], ◌∷◌, none, some, Result, ok, err, arith,
}
use mpquic_sbd.Session.Numbers
use mpquic_sbd.Session.Numbers.{
  PacketNumberGenerator, new_packet_number_generator, pops, pops-new_packet_number_generator,
  pop_skips_alone,
}
use mpquic_sbd.Session.Scheduler.{PathView, select_path_low_latency, selects}
use mpquic_sbd.Session.Scheduler
use mpquic_sbd.Session.Scheduler.Choice.{IsBestChoice, select_path_low_latency-IsBestChoice}
use mpquic_sbd.Session.Packer.{Packer, PackedPath, Composed, compose_next_packet}
use mpquic_sbd.Session.Frames
use mpquic_sbd.Session.Frames.{blocked_frame, goaway_frame}
use mpquic_sbd.Session.Packer
use mpquic_sbd.Protocol.{len2, get_packet_number_length}
use mpquic_sbd.Wire.Ack.{
  AckFrame, ack_min_length, ack_blocks_length, get_missing_sequence_number_delta_len, delta_len_for,
}
use mpquic_sbd.Examples.Transfer.{
  numbers, flow, params, framer, streams_map, streams, streams-AreReady,
}
use mpquic_sbd.Session.Packer.Fits.{IsComposed, compose_next_packet-IsComposed}

pops-new_packet_number_generator_example :
    pops (some 7 ∷ none ∷ some 9 ∷ []) (new_packet_number_generator 500) ≡ 1 ∷ 2 ∷ 3 ∷ []
pops-new_packet_number_generator_example =
    pops-new_packet_number_generator 500 (some 7 ∷ none ∷ some 9 ∷ []) (omega arith)

-- A generator that skips 6 next.
abbrev skipping : PacketNumberGenerator
skipping = record { average_period = 500; next = 5; next_to_skip = 6 }

skipping-pop : (Numbers.pop (some 0) skipping).1.next ≡ 7
unfolding Numbers.pop Numbers.generate_new_skip
skipping-pop = refl

pop_skips_alone_example :
    ((Numbers.pop (some 0) skipping).1.next ≡ 6)
    ⊎ (((Numbers.pop (some 0) skipping).1.next ≡ 7)
        × ((Numbers.pop none (Numbers.pop (some 0) skipping).1).1.next ≡ 8))
pop_skips_alone_example = pop_skips_alone (some 0) none skipping (omega arith)

abbrev path : ℕ → ℕ → PathView
path id rtt = record {
  path_id = id;
  sending_allowed = true;
  potentially_failed = false;
  smoothed_rtt = rtt;
}

abbrev paths : List PathView
paths = path 0 5 ∷ path 1 20 ∷ path 2 0 ∷ path 3 10 ∷ []

-- The path 3 has the least round-trip time of those that have one.
low_latency :
    select_path_low_latency false false (path 1 20) paths [] ≡ selects (some (path 3 10)) []
unfolding select_path_low_latency Scheduler.least_latency Scheduler.compare_path Scheduler.is_usable
low_latency = refl

select_path_low_latency-IsBestChoice_example :
    IsBestChoice false paths [] (select_path_low_latency false false (path 1 20) paths [])
select_path_low_latency-IsBestChoice_example =
    select_path_low_latency-IsBestChoice false false (path 1 20) paths [] (omega arith) refl

-- Packets 3 to 9 are acknowledged.
abbrev ack : AckFrame
ack = record {
  path_id = 1;
  largest_acked = 9;
  lowest_acked = 3;
  ack_ranges = [];
  delay = 0;
  groups = 1;
  epoch = 2;
}

abbrev reason : List ℕ
reason = 0x61 ∷ 0x62 ∷ []

-- The last control frame comes first: the BLOCKED frame is taken before the GOAWAY frame.
abbrev packer : Packer
packer = record {
  control_frames =
      blocked_frame record { stream_id = 5 }
      ∷ goaway_frame record { error_code = 0; last_good_stream = 3; reason_phrase = reason }
      ∷ [];
  stop_waiting =
      λ id. some record { least_unacked = 2; packet_number_len = len2; packet_number = 9 };
  ack_frame = λ id. some ack;
}

abbrev pth : PackedPath
pth = record { path_id = 1; last_sent_loss_count = 2 }

abbrev result : Result (Packer.PackError) (Composed params)
result = compose_next_packet params 60 true 7 3 pth packer framer streams_map flow streams

abbrev composed : Composed params
composed = elim result [
  | ok c ↦ c
  | err e ↦ record { frames = []; packer = packer; pth = pth; popped = none }
]

result-composed : result ≡ ok composed
unfolding compose_next_packet Packer.add_frame Packer.add_control_frames Frames.min_length
    Frames.stop_waiting_min_length ack_min_length ack_blocks_length get_packet_number_length
    get_missing_sequence_number_delta_len delta_len_for Frames.blocked_min_length
    Frames.goaway_min_length
result-composed = refl

compose_next_packet-IsComposed_example : IsComposed (λ id. numbers) params 60 composed
compose_next_packet-IsComposed_example =
    compose_next_packet-IsComposed (λ id. numbers) params 60 7 3 true pth packer framer streams_map
      flow streams composed streams-AreReady (record { bytes = refl; bounded = omega arith }, tt)
      result-composed
