-- ===== src/Rpc.antt =====
-- The client of src/rpc/jsonrpcclient.cpp: the table of requests, `request`, `send` and `handle`, and
-- `JsonMessage`. What the library does to read a number (`std::stol`) is a parameter.
pub mod Answers
use experimaestro.Prelude.{
  ℕ, suc, ◌+◌, ◌%◌, Bool, true, false, Option, none, some, List, [], ◌∷◌, ◌++◌, Text, codes,
  text_eq, text_lt, ◌==◌, if◌then◌else◌,
}
use experimaestro.Errors.{Result, ok, err, exception, json_error, ◌>>=◌}
use experimaestro.Scheduler.{u64_mod}
use experimaestro.Scalar.Json.{
  Json, null, json_string, number_unsigned, object, Members, no_member, member,
}
use experimaestro.Command.{get_member}

pub data ConnectionStatus : Type 0 where
  waiting opened closed failure : ConnectionStatus

-- `requests` has the answers of the requests that are under way, null until they come; `notified` has
-- the messages that the callback was called with.
pub record Client (D : Type 0) : Type 0 where
  pub current_request_id : ℕ
  pub requests : List (ℕ × Json D)
  pub has_callback : Bool
  pub notified : List (Json D)

module _ {D : Type 0} where
  -- `message[key]`, read: it puts null where there is no such member, and makes an object of null.
  unfoldable pub put_null : Text → Members D → Members D
  put_null key no_member = member key null no_member
  put_null key (member k v rest) =
      let behind = put_null key rest in
      if text_eq k key
      then member k v rest
      else if text_lt key k
      then member key null (member k v rest)
      else member k v behind

  unfoldable pub read_member : Text → Json D → Result (Json D × Json D)
  unfolding put_null get_member
  read_member key (object members) = elim (get_member key members) [
    | none ↦ ok (null, object (put_null key members))
    | some v ↦ ok (v, object members)
  ]
  read_member key null = ok (null, object (put_null key no_member))
  read_member key _ = err json_error

  unfoldable pub answer_of : ℕ → List (ℕ × Json D) → Option (Json D)
  answer_of id [] = none
  answer_of id ((k, j) ∷ more) = let found = answer_of id more in if k == id then some j else found

  -- `_requests[id] = …`, and `it->second->_message = …`
  unfoldable pub put_answer : ℕ → Json D → List (ℕ × Json D) → List (ℕ × Json D)
  put_answer id j [] = (id, j) ∷ []
  put_answer id j ((k, i) ∷ more) =
      let behind = put_answer id j more in if k == id then (id, j) ∷ more else (k, i) ∷ behind

  unfoldable pub erase_answer : ℕ → List (ℕ × Json D) → List (ℕ × Json D)
  erase_answer id [] = []
  erase_answer id ((k, i) ∷ more) =
      let behind = erase_answer id more in if k == id then more else (k, i) ∷ behind

  -- The message that `request` sends.
  unfoldable pub request_message : ℕ → Text → Json D → Json D
  request_message id method params = object (
      member (codes "id") (number_unsigned id) (
        member (codes "jsonrpc") (json_string (codes "2.0")) (
          member (codes "method") (json_string method) (member (codes "params") params no_member))))

  -- `request` up to the call of `send`: the number of the request is taken and entered.
  unfoldable pub enter_request : Text → Json D → Client D → Json D × Client D
  unfolding request_message put_answer
  enter_request method params c = (
    request_message c.current_request_id method params,
    record c {
      current_request_id = (c.current_request_id + 1) % u64_mod;
      requests = put_answer c.current_request_id null c.requests;
    },
  )

  -- The last block of `request`.
  unfoldable pub leave_request : ℕ → Client D → Client D
  unfolding erase_answer
  leave_request id c = record c { requests = erase_answer id c.requests }

  -- `handle`, of an identifier that was read.
  unfoldable pub handle_id : (Text → Result ℕ) → Json D → Json D → Client D → Result (Client D)
  unfolding answer_of put_answer
  handle_id stol null message c =
      ok (if c.has_callback then record c { notified = c.notified ++ message ∷ [] } else c)
  handle_id stol (json_string text) message c = do
    id ← stol text
    ok (elim (answer_of id c.requests) [
      | none ↦ c
      | some _ ↦ record c { requests = put_answer id message c.requests }
    ])
  handle_id stol _ message c = err json_error

  unfoldable pub handle : (Text → Result ℕ) → Json D → Client D → Result (Client D)
  unfolding read_member handle_id
  handle stol message c = read_member (codes "id") message >>= λ r. handle_id stol r.0 r.1 c

  -- `JsonMessage::error` and `result`.
  unfoldable pub has_error : Json D → Bool
  unfolding get_member
  has_error (object members) = elim (get_member (codes "error") members) [
    | none ↦ false
    | some _ ↦ true
  ]
  has_error _ = false

  unfoldable pub result_of : Json D → Json D
  unfolding get_member
  result_of (object members) = elim (get_member (codes "result") members) [
    | none ↦ null
    | some r ↦ r
  ]
  result_of _ = null

-- Where a call of `send` is: it has come back, has thrown, or is still in its loop.
pub data Sending (D : Type 0) : Type 0 where
  returned looping : (frames : List (Json D)) → Sending D
  thrown : (frames : List (Json D)) → Sending D

-- The loop of `send`, for the statuses that it sees when it stops waiting.
unfoldable pub send : {D : Type 0} → Json D → List ConnectionStatus → List (Json D) → Sending D
send message [] frames = looping frames
send message (waiting ∷ seen) frames = send message seen frames
send message (opened ∷ seen) frames = send message seen (frames ++ message ∷ [])
send message (_ ∷ seen) frames = thrown frames
