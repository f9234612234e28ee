-- ===== src/Connection/Fragments.antt =====
-- network/Connection.ts: `FragmentedClientMessageHandler`, and what the listener of a connection does
-- with a message that was read; `merge` and `dropFragmentationFrame` of protocol/ClientMessage.ts. The
-- number of a Long, by which the messages in part are kept, is the work of a package.
use hazelcast_nodejs_client.Prelude.{
  Bool, true, false, ◌&&◌, List, [], ◌∷◌, ◌++◌, Option, none, some, if◌then◌else◌, ◌>>=◌,
}
use hazelcast_nodejs_client.JsMap.{Eq, lookup, insert, remove}
use hazelcast_nodejs_client.ObjectData.{Long}
use hazelcast_nodejs_client.Codec.FixedSize.{decode_long}
use hazelcast_nodejs_client.Connection.Message.{
  BytesFrame, Message, has_begin_fragment_flag, has_end_fragment_flag,
  has_unfragmented_message_flag,
}

-- A message without its fragmentation frame: the frames from `startFrame` on, and whether `endFrame` is
-- the last of them. It is not when there was no frame but the one that was dropped.
pub record Part : Type 0 where
  pub frames : Message
  pub attached : Bool

unfoldable pub drop_fragmentation_frame : Message → Part
drop_fragmentation_frame [] = record { frames = []; attached = false }
drop_fragmentation_frame (_ ∷ []) = record { frames = []; attached = false }
drop_fragmentation_frame (_ ∷ f ∷ fs) = record { frames = f ∷ fs; attached = true }

-- What is linked behind a frame that is dropped is not reached from `startFrame`.
unfoldable pub merge : Part → Part → Part
merge existing fragment = record {
  frames = if existing.attached then existing.frames ++ fragment.frames else existing.frames;
  attached = existing.attached && fragment.attached;
}

-- `getFragmentationId`, at FRAGMENTATION_ID_OFFSET.
unfoldable pub get_fragmentation_id : Message → Option Long
get_fragmentation_id [] = none
get_fragmentation_id (f ∷ _) = decode_long f.content 0

unfoldable pub given : Option Part → List Part
given none = []
given (some part) = part ∷ []

module _ {K : Type 0} ⦃e : Eq K⦄ where
  -- A fragment behind the first, with what its message has so far.
  unfoldable pub extend_part :
      K → BytesFrame → Part → Option Part → List (K × Part) → List (K × Part) × Option Part
  extend_part id frame part none messages = (messages, none)
  extend_part id frame part (some existing) messages =
      let merged = merge existing part in
      if has_end_fragment_flag frame
      then (remove id messages, some merged)
      else (insert id merged messages, none)

  -- The handler's messages in part, and what its callback is given.
  unfoldable pub handle_fragment :
      K → BytesFrame → Part → List (K × Part) → List (K × Part) × Option Part
  handle_fragment id frame part messages =
      if has_begin_fragment_flag frame
      then (insert id part messages, none)
      else extend_part id frame part (lookup id messages) messages

  unfoldable pub handle_fragmented_message :
      (Long → K) → Message → List (K × Part) → Option (List (K × Part) × Option Part)
  handle_fragmented_message to_number [] messages = none
  handle_fragmented_message to_number (frame ∷ rest) messages =
      get_fragmentation_id (frame ∷ rest) >>= λ id.
      some (handle_fragment (to_number id) frame (drop_fragmentation_frame (frame ∷ rest)) messages)

  -- `registerResponseCallback`: a message that is read, and what the callback is given of it.
  unfoldable pub hand_on :
      (Long → K) → Message → List (K × Part) → Option (List (K × Part) × Option Part)
  hand_on to_number [] messages = none
  hand_on to_number (frame ∷ rest) messages =
      if has_unfragmented_message_flag frame
      then some (messages, some (record { frames = frame ∷ rest; attached = true }))
      else handle_fragmented_message to_number (frame ∷ rest) messages

  -- The messages of a connection, in the order in which they are read.
  unfoldable pub hand_on_all :
      (Long → K) → List Message → List (K × Part) → Option (List (K × Part) × List Part)
  hand_on_all to_number [] messages = some (messages, [])
  hand_on_all to_number (m ∷ ms) messages = hand_on to_number m messages >>= λ first.
      (hand_on_all to_number ms first.0 >>= λ rest. some (rest.0, given first.1 ++ rest.1))
