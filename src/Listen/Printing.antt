-- ===== src/Listen/Printing.antt =====
-- What the tool of crates/usahp-listen/src/main.rs prints of a daemon's messages.
use usahp_core.Base.{
  append-nil, sym, none, ◌≡◌, refl, ◌∙◌, ap, Bool, true, false, List, [], ◌∷◌, ◌++◌, Option, some,
}
use usahp_core.Str.{Str, str}
use usahp_core.Protocol.Float.{F32}
use usahp_core.Protocol.{HandshakeResponse, ServerMessage}
use usahp_core.Listen.{Frame, text, other, receive_error, print_message, listen, main}

-- Every text is that of a message: the decoder reads it, and the encoder writes the message the same
-- way; no receive fails.
abbrev pub AreMessages :
    (ServerMessage → Option Str) → (Str → Option ServerMessage) → List Frame → Type 0
AreMessages to_string from_str [] = Unit {0}
AreMessages to_string from_str (receive_error ∷ frames) = ⊥
AreMessages to_string from_str (other ∷ frames) = AreMessages to_string from_str frames
AreMessages to_string from_str (text t ∷ frames) =
    ((m : ServerMessage) × (from_str t ≡ some m) × (to_string m ≡ some t))
    × AreMessages to_string from_str frames

-- The texts of the frames.
abbrev pub texts : List Frame → List Str
texts [] = []
texts (receive_error ∷ frames) = texts frames
texts (other ∷ frames) = texts frames
texts (text t ∷ frames) = t ∷ texts frames

-- The next frame ends the loop with an error: a failed receive, or a text that is no message.
abbrev pub IsBad : (Str → Option ServerMessage) → List Frame → Type 0
IsBad from_str [] = ⊥
IsBad from_str (receive_error ∷ frames) = Unit {0}
IsBad from_str (other ∷ frames) = ⊥
IsBad from_str (text t ∷ frames) = from_str t ≡ none

module _ (fixed_1 : F32 → Str) (debug_response : HandshakeResponse → Str)
    (to_string : ServerMessage → Option Str) (from_str : Str → Option ServerMessage) where
  abbrev relay : List Frame → List Str × Bool
  relay frames = listen fixed_1 debug_response to_string from_str true frames

  listen-append :
      (frames rest : List Frame)
      → AreMessages to_string from_str frames
      → relay (frames ++ rest) ≡ (texts frames ++ (relay rest).0, (relay rest).1)
  unfolding listen print_message
  listen-append [] rest h = refl
  listen-append (receive_error ∷ frames) rest h = absurd h
  listen-append (other ∷ frames) rest h = listen-append frames rest h
  listen-append (text t ∷ frames) rest h =
      let (m, reads, writes) = h.0 in
      rw (listen, reads, print_message, writes)
        (ap (λ (x : List Str × Bool). (t ∷ x.0, x.1)) (listen-append frames rest h.1))

  listen-IsBad : (frames : List Frame) → IsBad from_str frames → relay frames ≡ ([], false)
  unfolding listen
  listen-IsBad [] h = absurd h
  listen-IsBad (receive_error ∷ frames) h = refl
  listen-IsBad (other ∷ frames) h = absurd h
  listen-IsBad (text t ∷ frames) h = rw (listen, h) refl

  -- With `--json` the tool is a faithful relay: for frames whose texts are those of messages, with other
  -- frames between them, it prints a line for the connection and then the very texts, in order, and ends
  -- well when the stream does; and if a failed receive or a text that is no message comes after them, it
  -- has printed the same lines, nothing of what follows, and ends with an error.
  pub main-json_lem :
      (url : Str) (frames rest : List Frame)
      → AreMessages to_string from_str frames
      → (main fixed_1 debug_response to_string from_str url true (some frames)
          ≡ ((str "connected to " ++ url) ∷ texts frames, true))
        × (IsBad from_str rest
            → main fixed_1 debug_response to_string from_str url true (some (frames ++ rest))
              ≡ ((str "connected to " ++ url) ∷ texts frames, false))
  unfolding main listen
  main-json_lem url frames rest h = (
    ap shown (
        ap (λ l. relay l) (sym (append-nil frames))
        ∙ listen-append frames [] h
        ∙ ap (λ l. (l, true)) (append-nil (texts frames))),
    λ bad. ap shown (
        listen-append frames rest h
        ∙ ap (λ (x : List Str × Bool). (texts frames ++ x.0, x.1)) (listen-IsBad rest bad)
        ∙ ap (λ l. (l, false)) (append-nil (texts frames))),
  )
    where
      shown : List Str × Bool → List Str × Bool
      shown (lines, good) = ((str "connected to " ++ url) ∷ lines, good)
