-- ===== src/Server/Milestones.antt =====
-- What the host is told of a connection, whatever arrives on it.
use openairplay.Prelude.{ℕ, ◌≡◌, refl, ap, ◌∙◌, inl, false, Option, some, List, Bytes}
use openairplay.Session.{Event, drop_session}
use openairplay.Session.Host.{Merged, HasStopped, fresh, follows_all, behind_all-HasStopped}
use openairplay.Session.Orderly.{behind_all, IsOrderly, new-IsOrderly}
use openairplay.Session.Milestones.{apply-IsOrderly, end_session-IsOrderly, ended}
use openairplay.Session.Volume.{HasUsable, apply-HasUsable, end_session-HasUsable}
use openairplay.Takeover.{Slots}
use openairplay.Server.{Externals, Sn, Turn, accepted, close, serve}
use openairplay.Server.Kept.{IsKept, serve_kept}

module _ (x : Externals) where
  drop_session-IsOrderly :
      (s : Sn x)
      → IsOrderly x.from_utf8_lossy s
      → IsOrderly x.from_utf8_lossy (drop_session x.from_utf8_lossy s)
  unfolding drop_session
  drop_session-IsOrderly s h =
      let q = end_session-IsOrderly x.from_utf8_lossy s h in
      record {
        in_order = q.in_order;
        metadata_latched = q.metadata_latched;
        artwork_latched = q.artwork_latched;
      }

  IsOrderly-IsKept : IsKept x (IsOrderly x.from_utf8_lossy)
  IsOrderly-IsKept = record {
    verb = apply-IsOrderly x.from_utf8_lossy;
    store = λ stream_type audio_format stream_key s h. record {
      in_order = h.in_order;
      metadata_latched = h.metadata_latched;
      artwork_latched = h.artwork_latched;
    };
    dropped = drop_session-IsOrderly;
  }

  HasUsable-IsKept : IsKept x (HasUsable x.from_utf8_lossy)
  unfolding drop_session
  HasUsable-IsKept = record {
    verb = apply-HasUsable x.from_utf8_lossy;
    store = λ stream_type audio_format stream_key s h. record {
      told = h.told;
      kept = h.kept;
      metadata_latched = h.metadata_latched;
      artwork_latched = h.artwork_latched;
    };
    dropped = λ s h.
        let q = end_session-HasUsable x.from_utf8_lossy s h in
        record {
          told = q.told;
          kept = q.kept;
          metadata_latched = q.metadata_latched;
          artwork_latched = q.artwork_latched;
        };
  }

  closed_in_order :
      (reader : List Bytes) (password : Option Bytes) (peer_ip conn_id : ℕ) (slots : Slots)
      (turns : List (Turn x))
      → behind_all
          (some false)
          (close x
            (serve x turns (accepted x reader password peer_ip conn_id slots))).session.events
        ≡ some false
  unfolding drop_session
  closed_in_order reader password peer_ip conn_id slots turns =
      let s = (serve x turns (accepted x reader password peer_ip conn_id slots)).session in
      let h =
        serve_kept x (IsOrderly x.from_utf8_lossy) IsOrderly-IsKept turns
          (accepted x reader password peer_ip conn_id slots)
          (new-IsOrderly x.from_utf8_lossy peer_ip) in
      (end_session-IsOrderly x.from_utf8_lossy s h).in_order ∙ ap some (ended x.from_utf8_lossy s)

  -- Whatever bytes arrive on a connection, whatever ends it, and however the reports of its playback
  -- threads come among what its control task sends: the host gets metadata and cover art only inside
  -- a session, a position only once a session was started, a session ends only where one runs, and
  -- none is left running when the connection is over.
  pub serve-HasStopped :
      (reader : List Bytes) (password : Option Bytes) (peer_ip conn_id : ℕ) (slots : Slots)
      (turns : List (Turn x)) (host : List (Event Bytes))
      → Merged false
          (close x
            (serve x turns (accepted x reader password peer_ip conn_id slots))).session.events
          host
      → HasStopped (follows_all (some fresh) host)
  serve-HasStopped reader password peer_ip conn_id slots turns host merged =
      behind_all-HasStopped _ host (closed_in_order reader password peer_ip conn_id slots turns)
        merged

  -- Whatever bytes arrive on a connection, each volume that the host is told of, and the one that
  -- answers a sender's query, is a number from -144.0 to 0.0.
  pub serve-HasUsable :
      (reader : List Bytes) (password : Option Bytes) (peer_ip conn_id : ℕ) (slots : Slots)
      (turns : List (Turn x))
      → HasUsable x.from_utf8_lossy
          (serve x turns (accepted x reader password peer_ip conn_id slots)).session
  serve-HasUsable reader password peer_ip conn_id slots turns =
      serve_kept x (HasUsable x.from_utf8_lossy) HasUsable-IsKept turns
        (accepted x reader password peer_ip conn_id slots)
        (record { told = tt; kept = inl refl; metadata_latched = tt; artwork_latched = tt })
