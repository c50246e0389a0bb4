-- ===== src/Rpc/Answers.antt =====
-- The requests under way, and what becomes of the call that sends one.
use mathlib.Core.Option.{none-ne-some}
use experimaestro.Prelude.{
  ℕ, zero, suc, ◌≡◌, refl, map, Option, none, List, [], ◌∷◌, ◌++◌, append_assoc, append-nil, Text,
  text_eq, codes, ◌==◌, if◌then◌else◌, inl, inr, ◌⊎◌,
}
use experimaestro.Errors.{Result, ok, err, json_error, ◌>>=◌}
use experimaestro.Scalar.Json.{Json, null, object}
use experimaestro.Command.{get_member}
use experimaestro.Rpc.{
  ConnectionStatus, waiting, opened, closed, failure, Client, read_member, request_message,
  enter_request, handle_id, handle, looping, thrown, send,
}

-- How often `send` saw an open connection before it saw the first that is closed or failed.
unfoldable pub sends : List ConnectionStatus → ℕ
sends [] = 0
sends (waiting ∷ seen) = sends seen
sends (opened ∷ seen) = suc (sends seen)
sends (_ ∷ seen) = 0

-- The identifiers behind the request that is erased.
unfoldable pub erase_id : ℕ → List ℕ → List ℕ
erase_id id [] = []
erase_id id (k ∷ ks) = if k == id then ks else k ∷ erase_id id ks

module _ {D : Type 0} where
  abbrev pub ids : List (ℕ × Json D) → List ℕ
  ids requests = map (λ r. r.0) requests

  -- The messages that come in, one after the other.
  unfoldable pub handle_all : (Text → Result ℕ) → List (Json D) → Client D → Result (Client D)
  unfolding handle
  handle_all stol [] c = ok c
  handle_all stol (message ∷ more) c = handle stol message c >>= handle_all stol more

  -- The identifier of a message.
  unfoldable pub id_of : Json D → Option (Json D)
  unfolding get_member
  id_of (object members) = get_member (codes "id") members
  id_of _ = none

  -- An answer with the very identifier that its request was sent with makes `handle` throw, for any client: a request has a
  -- number, and `handle` takes a text.
  handle-enter_request :
      (stol : Text → Result ℕ) (answer : Json D) (method : Text) (params : Json D) (c c' : Client D)
      → id_of answer ≡ id_of (enter_request method params c).0
      → handle stol answer c' ≡ err json_error
  unfolding handle read_member handle_id id_of enter_request request_message get_member text_eq
  handle-enter_request stol (object members) method params c c' same =
      rw (same, handle, read_member) refl
  handle-enter_request stol null method params c c' same = absurd (none-ne-some _ same)
  handle-enter_request stol _ method params c c' same = absurd (none-ne-some _ same)

  -- So many frames of the same message.
  unfoldable pub copies : ℕ → Json D → List (Json D)
  copies zero message = []
  copies (suc n) message = message ∷ copies n message

  -- `send` never comes back: it sends the message again each time that it sees the connection open, until it throws
  -- because the connection is closed or has failed, or it is still in its loop.
  send-copies :
      (message : Json D) (seen : List ConnectionStatus) (frames : List (Json D))
      → (send message seen frames ≡ looping (frames ++ copies (sends seen) message))
        ⊎ (send message seen frames ≡ thrown (frames ++ copies (sends seen) message))
  unfolding send sends copies
  send-copies message [] frames = inl (rw append-nil refl)
  send-copies message (waiting ∷ seen) frames = send-copies message seen frames
  send-copies message (opened ∷ seen) frames =
      rw (← append_assoc frames (message ∷ []) (copies (sends seen) message))
        (send-copies message seen (frames ++ message ∷ []))
  send-copies message (closed ∷ seen) frames = inr (rw append-nil refl)
  send-copies message (failure ∷ seen) frames = inr (rw append-nil refl)
