-- ===== src/EncIndex/Streams.antt =====
-- client_proxy/encrypted_index.go: chanSplitter and bloomStreamer, over what they receive.
use duck_duck_xor.Base.{Bool, none, some, List, [], ◌∷◌}
use duck_duck_xor.Base.{if◌then◌else◌}
use duck_duck_xor.Base.{Bytes}
use duck_duck_xor.Base.{Outcome, done, blocked}
use duck_duck_xor.Preprocess.{InvIndexDocument}
use duck_duck_xor.Bloom.{Inbox, queue_x_set_add}

-- chanSplitter: what goes to the X-Set workers, and what goes to the t-set workers.
unfoldable pub chan_splitter : List InvIndexDocument → List InvIndexDocument × List InvIndexDocument
chan_splitter [] = ([], [])
chan_splitter (doc_index ∷ docs) =
    let rest = chan_splitter docs in (doc_index ∷ rest.0, doc_index ∷ rest.1)

-- The loop of bloomStreamer: the error of a bloom master that shuts down is passed over.
unfoldable pub stream_xtags : List (List Bytes) → Inbox → Inbox
unfolding queue_x_set_add
stream_xtags [] bloom = bloom
stream_xtags (xtags ∷ finished_xtags) bloom =
    stream_xtags finished_xtags
      (elim (queue_x_set_add xtags bloom) [ none ↦ bloom | some bloom' ↦ bloom' ])

-- bloomStreamer: it waits until the filter of the X-Set has been made.
unfoldable pub bloom_streamer : Bool → List (List Bytes) → Inbox → Outcome Inbox
unfolding stream_xtags
bloom_streamer x_set_ready finished_xtags bloom =
    if x_set_ready then done (stream_xtags finished_xtags bloom) else blocked
