-- ===== src/Screen/Pipeline.antt =====
-- src/screen/bridge/stdout_reader.rs and forwarder.rs, and the restart of the encoder in
-- src/screen/bridge/controller.rs: the encoder's output on its way to the media
-- server. The two threads share the output queue and the stop flag: a step is one action of one thread
-- between two accesses, so that any sequence of steps is an interleaving.
pub mod Thinned
pub mod Flowing
pub mod Reading
pub mod Forwarding
pub mod Delivery
mod Examples
use cast_app.Common.{
  ℕ, ◌+◌, Option, none, some, Bool, true, false, List, [], ◌∷◌, ◌++◌, if◌then◌else◌, case_option,
  not, ◌||◌,
}
use cast_app.Util.Backpressure.{BoundedDropOldest, push_or, try_pop, clear}
use cast_app.Screen.Segments.{
  EncodedSegment, init_segment, fragment_segment, Mp4Segmenter, feed, finish,
}
use cast_app.Screen.Segments as Segments

-- `OUTPUT_QUEUE_CAPACITY`.
abbrev pub output_queue_capacity : ℕ
output_queue_capacity = 8

-- `matches!(buffered, EncodedSegment::Fragment(_))`.
abbrev pub evictable : EncodedSegment → Bool
evictable (init_segment b) = false
evictable (fragment_segment b) = true

-- The rejected segment, if any, is only logged.
unfoldable pub push_segment :
    BoundedDropOldest EncodedSegment → EncodedSegment → BoundedDropOldest EncodedSegment
push_segment output segment = (push_or output segment evictable).0

-- What `reader.read` returns; no bytes are the end of the stream.
pub data ReadEvent : Type 0 where
  read_bytes : List ℕ → ReadEvent
  interrupted : ReadEvent
  read_failed : ReadEvent

-- What `try_send` returns.
pub data Sending : Type 0 where
  sent full closed : Sending

-- `pushing` are the segments of one `feed` or of `finish` that `read_encoded` has yet to push; `held` is
-- the segment in `forward_segment`. The last three fields are logs that the code does not keep: what was
-- delivered or held when the encoder was last restarted, what the segmenter has put out since, and the
-- segments whose bytes the server has.
pub record Pipeline : Type 0 where
  pub segmenter : Mp4Segmenter
  pub reading : Bool
  pub pushing : List EncodedSegment
  pub output : BoundedDropOldest EncodedSegment
  pub held : Option EncodedSegment
  pub forwarding : Bool
  pub stop : Bool
  pub dropped : ℕ
  pub earlier : List EncodedSegment
  pub produced : List EncodedSegment
  pub delivered : List EncodedSegment

unfoldable pub start : Pipeline
unfolding Segments.new
start = record {
  segmenter = Segments.new;
  reading = true;
  pushing = [];
  output = record { items = []; capacity = output_queue_capacity };
  held = none;
  forwarding = true;
  stop = false;
  dropped = 0;
  earlier = [];
  produced = [];
  delivered = [];
}

abbrev pub put_out : Mp4Segmenter × List EncodedSegment → Pipeline → Pipeline
put_out (segmenter, segments) p = record p {
  segmenter = segmenter;
  pushing = segments;
  produced = p.produced ++ segments;
}

-- `read_encoded`: a read, once the segments of the one before are pushed.
abbrev pub read_encoded : ReadEvent → Pipeline → Pipeline
read_encoded (read_bytes []) p = put_out (finish p.segmenter) (record p { reading = false })
read_encoded (read_bytes (b ∷ bytes)) p = put_out (feed p.segmenter (b ∷ bytes)) p
read_encoded interrupted p = p
read_encoded read_failed p = record p { reading = false }

abbrev pub reads_next : Bool → List EncodedSegment → ReadEvent → Pipeline → Pipeline
reads_next true [] r p = read_encoded r p
reads_next true (segment ∷ segments) r p = p
reads_next false segments r p = p

abbrev pub push_next : List EncodedSegment → Pipeline → Pipeline
push_next [] p = p
push_next (segment ∷ segments) p = record p {
  output = push_segment p.output segment;
  pushing = segments;
}

-- A round of `forwarder_loop`, up to the call of `forward_segment`.
abbrev pub pop_next : Bool → Pipeline → Pipeline
pop_next true p = record p { forwarding = false }
pop_next false p = record p { output = (try_pop p.output).0; held = (try_pop p.output).1 }

-- A round of the loop in `forward_segment`.
abbrev pub forward_segment : Sending → EncodedSegment → Pipeline → Pipeline
forward_segment sent segment p = record p { held = none; delivered = p.delivered ++ (segment ∷ []) }
forward_segment full (fragment_segment b) p = record p { held = none; dropped = p.dropped + 1 }
forward_segment full (init_segment b) p = if p.stop then record p { forwarding = false } else p
forward_segment closed segment p = record p { stop = true; forwarding = false }

abbrev pub in_hand : Option EncodedSegment → List EncodedSegment
in_hand none = []
in_hand (some segment) = segment ∷ []

-- `EncoderState::restart` of the controller, and `fail` if the next encoder does not start. The readers of
-- the old one are joined first.
unfoldable pub restart : Bool → Pipeline → Pipeline
unfolding clear Segments.new
restart spawned p = record p {
  segmenter = Segments.new;
  reading = spawned;
  output = clear p.output;
  stop = p.stop || not spawned;
  earlier = p.delivered ++ in_hand p.held;
  produced = [];
}

abbrev pub restarts_next : Bool → List EncodedSegment → Bool → Pipeline → Pipeline
restarts_next false [] spawned p = restart spawned p
restarts_next false (segment ∷ segments) spawned p = p
restarts_next true pushing spawned p = p

pub data Step : Type 0 where
  reads : ReadEvent → Step
  pushes : Step
  pops : Step
  sends : Sending → Step
  requests_stop : Step
  restarts : (spawned : Bool) → Step

abbrev pub forwards : Bool → Option EncodedSegment → Step → Pipeline → Pipeline
forwards false held s p = p
forwards true none pops p = pop_next p.stop p
forwards true (some segment) (sends sending) p = forward_segment sending segment p
forwards true held s p = p

unfoldable pub step : Step → Pipeline → Pipeline
unfolding push_segment restart
step (reads r) p = reads_next p.reading p.pushing r p
step pushes p = push_next p.pushing p
step pops p = forwards p.forwarding p.held pops p
step (sends sending) p = forwards p.forwarding p.held (sends sending) p
step requests_stop p = record p { stop = true }
step (restarts spawned) p = restarts_next p.reading p.pushing spawned p

unfoldable pub run : List Step → Pipeline → Pipeline
unfolding step
run [] p = p
run (s ∷ ss) p = run ss (step s p)
