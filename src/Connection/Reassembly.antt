-- ===== src/Connection/Reassembly.antt =====
-- network/Connection.ts: a message that arrives in fragments is handed on whole, whatever arrives in
-- between.
use hazelcast_nodejs_client.Prelude.{
  ◌≡◌, refl, ap, sym, ◌∙◌, inl, inr, true, false, Bool-cases, List, [], ◌∷◌, ◌++◌, append_assoc,
  Option, none, some,
}
use hazelcast_nodejs_client.JsMap.{
  Eq, lookup, insert, remove, lookup-insert, lookup-remove, eqb_refl,
}
use hazelcast_nodejs_client.ObjectData.{Long}
use hazelcast_nodejs_client.Codec.FixedSize.{decode_long}
use hazelcast_nodejs_client.Connection.Message.{
  BytesFrame, Message, has_begin_fragment_flag, has_end_fragment_flag,
  has_unfragmented_message_flag,
}
use hazelcast_nodejs_client.Connection.Fragments.{
  Part, drop_fragmentation_frame, merge, get_fragmentation_id, extend_part, handle_fragment,
  handle_fragmented_message, hand_on, given, hand_on_all,
}

module _ {K : Type 0} ⦃e : Eq K⦄ (to_number : Long → K) (k : K) where
  -- The frame says that it belongs to the message of that number.
  abbrev pub IsOf : BytesFrame → K → Type 0
  IsOf frame j = (id : Long) × (decode_long frame.content 0 ≡ some id) × (to_number id ≡ j)

  -- What arrives after the first fragment: the other fragments, each with its frames, the last one
  -- marked; and in between, messages that are not fragmented and fragments of other messages.
  pub data Arrives : List Message → Message → Type 0 where
    ends :
        (frame f : BytesFrame) (fs : Message)
        → IsOf frame k
        → has_begin_fragment_flag frame ≡ false
        → has_end_fragment_flag frame ≡ true
        → Arrives ((frame ∷ f ∷ fs) ∷ []) (f ∷ fs)
    goes_on :
        {ms : List Message} {frames : Message} (frame f : BytesFrame) (fs : Message)
        → IsOf frame k
        → has_begin_fragment_flag frame ≡ false
        → has_end_fragment_flag frame ≡ false
        → Arrives ms frames
        → Arrives ((frame ∷ f ∷ fs) ∷ ms) ((f ∷ fs) ++ frames)
    other :
        {ms : List Message} {frames : Message} (frame : BytesFrame) (rest : Message) (j : K)
        → IsOf frame j
        → e.eqb j k ≡ false
        → Arrives ms frames
        → Arrives ((frame ∷ rest) ∷ ms) frames
    unfragmented :
        {ms : List Message} {frames : Message} (frame : BytesFrame) (rest : Message)
        → has_unfragmented_message_flag frame ≡ true
        → Arrives ms frames
        → Arrives ((frame ∷ rest) ∷ ms) frames

  -- The message is handed on last, and forgotten.
  abbrev pub HandsOn : List Message → List (K × Part) → Message → Type 0
  HandsOn ms messages whole =
      (after : List (K × Part)) × (before : List Part) × (hand_on_all to_number ms messages
        ≡ some (after, before ++ record { frames = whole; attached = true } ∷ []))
      × (lookup k after ≡ none)

  hand_on-fragment :
      (frame : BytesFrame) (rest : Message) (messages : List (K × Part)) (j : K)
      → IsOf frame j
      → has_unfragmented_message_flag frame ≡ false
      → hand_on to_number (frame ∷ rest) messages
        ≡ some (handle_fragment j frame (drop_fragmentation_frame (frame ∷ rest)) messages)
  unfolding hand_on handle_fragmented_message get_fragmentation_id
  hand_on-fragment frame rest messages j (id, found, named) fragmented =
      rw (fragmented, found, named) refl

  not_whole :
      (frame : BytesFrame)
      → has_begin_fragment_flag frame ≡ false
      → has_unfragmented_message_flag frame ≡ false
  unfolding has_unfragmented_message_flag
  not_whole frame b = rw (b) refl

  insert-other :
      (j : K) (part : Part) (messages : List (K × Part))
      → e.eqb j k ≡ false
      → lookup k (insert j part messages) ≡ lookup k messages
  insert-other j part messages differs = rw (lookup-insert j k part messages, differs) refl

  extend_part-other :
      (j : K) (frame : BytesFrame) (part : Part) (found : Option Part) (messages : List (K × Part))
      → e.eqb j k ≡ false
      → lookup k (extend_part j frame part found messages).0 ≡ lookup k messages
  unfolding extend_part
  extend_part-other j frame part none messages differs = refl
  extend_part-other j frame part (some existing) messages differs =
      elim (Bool-cases (has_end_fragment_flag frame)) [
        | inl ended ↦ rw (ended, lookup-remove j k messages, differs) refl
        | inr open_yet ↦ rw (open_yet) (insert-other j (merge existing part) messages differs)
      ]

  -- A fragment of another message.
  handle_fragment-other :
      (j : K) (frame : BytesFrame) (part : Part) (messages : List (K × Part))
      → e.eqb j k ≡ false
      → lookup k (handle_fragment j frame part messages).0 ≡ lookup k messages
  unfolding handle_fragment
  handle_fragment-other j frame part messages differs =
      elim (Bool-cases (has_begin_fragment_flag frame)) [
        | inl begun ↦ rw (begun) (insert-other j part messages differs)
        | inr later ↦
            rw (later) (extend_part-other j frame part (lookup j messages) messages differs)
      ]

  -- A first step that is known, and the rest.
  after_step :
      (m : Message) (ms : List Message) (messages next : List (K × Part)) (got : Option Part)
      (whole : Message)
      → hand_on to_number m messages ≡ some (next, got)
      → HandsOn ms next whole
      → HandsOn (m ∷ ms) messages whole
  unfolding hand_on_all given
  after_step m ms messages next got whole step (after, before, run, gone) = (
    after,
    given got ++ before,
    rw (step, run)
        (ap (λ l. some (after, l))
          (sym
            (append_assoc (given got) before (record { frames = whole; attached = true } ∷ [])))),
    gone,
  )

  abbrev whole_part : Message → Part
  whole_part frames = record { frames = frames; attached = true }

  hand_on-unfragmented :
      (frame : BytesFrame) (rest : Message) (messages : List (K × Part))
      → has_unfragmented_message_flag frame ≡ true
      → hand_on to_number (frame ∷ rest) messages
        ≡ some (messages, some (whole_part (frame ∷ rest)))
  unfolding hand_on
  hand_on-unfragmented frame rest messages flag = rw (flag) refl

  -- A fragment of the message in part, and its last one.
  hand_on-goes_on :
      (frame f : BytesFrame) (fs : Message) (messages : List (K × Part)) (got : Message)
      → IsOf frame k
      → has_begin_fragment_flag frame ≡ false
      → has_end_fragment_flag frame ≡ false
      → lookup k messages ≡ some (whole_part got)
      → hand_on to_number (frame ∷ f ∷ fs) messages
        ≡ some (insert k (whole_part (got ++ f ∷ fs)) messages, none)
  unfolding handle_fragment extend_part merge drop_fragmentation_frame
  hand_on-goes_on frame f fs messages got named b n at =
      hand_on-fragment frame (f ∷ fs) messages k named (not_whole frame b) ∙ rw (b, at, n) refl

  hand_on-ends :
      (frame f : BytesFrame) (fs : Message) (messages : List (K × Part)) (got : Message)
      → IsOf frame k
      → has_begin_fragment_flag frame ≡ false
      → has_end_fragment_flag frame ≡ true
      → lookup k messages ≡ some (whole_part got)
      → hand_on to_number (frame ∷ f ∷ fs) messages
        ≡ some (remove k messages, some (whole_part (got ++ f ∷ fs)))
  unfolding handle_fragment extend_part merge drop_fragmentation_frame
  hand_on-ends frame f fs messages got named b n at =
      hand_on-fragment frame (f ∷ fs) messages k named (not_whole frame b) ∙ rw (b, at, n) refl

  lookup-insert_same :
      (part : Part) (messages : List (K × Part)) → lookup k (insert k part messages) ≡ some part
  lookup-insert_same part messages = rw (lookup-insert k k part messages, eqb_refl k) refl

  lookup-remove_same : (messages : List (K × Part)) → lookup k (remove k messages) ≡ none
  lookup-remove_same messages = rw (lookup-remove k k messages, eqb_refl k) refl

  -- With its first fragments in the map, all that is left arrives.
  hand_on_all-Arrives :
      {ms : List Message} {frames : Message} (messages : List (K × Part)) (got : Message)
      → lookup k messages ≡ some (whole_part got)
      → Arrives ms frames
      → HandsOn ms messages (got ++ frames)
  unfolding hand_on_all given
  hand_on_all-Arrives messages got at (other {ms} frame rest j named differs arriving) =
      elim (Bool-cases (has_unfragmented_message_flag frame)) [
        | inl flag ↦
            after_step (frame ∷ rest) ms messages messages _ _
              (hand_on-unfragmented frame rest messages flag)
              (hand_on_all-Arrives messages got at arriving)
        | inr part_of ↦
            let next = handle_fragment j frame (drop_fragmentation_frame (frame ∷ rest)) messages in
            after_step (frame ∷ rest) ms messages next.0 next.1 _
              (hand_on-fragment frame rest messages j named part_of)
              (hand_on_all-Arrives next.0 got
                (handle_fragment-other j frame (drop_fragmentation_frame (frame ∷ rest)) messages
                    differs
                  ∙ at)
                arriving)
      ]
  hand_on_all-Arrives messages got at (unfragmented {ms} frame rest flag arriving) =
      after_step (frame ∷ rest) ms messages messages _ _
        (hand_on-unfragmented frame rest messages flag)
        (hand_on_all-Arrives messages got at arriving)
  hand_on_all-Arrives messages got at (goes_on {ms} {frames} frame f fs named b n arriving) =
      let next = insert k (whole_part (got ++ f ∷ fs)) messages in
      rw (← append_assoc got (f ∷ fs) frames) (
        after_step (frame ∷ f ∷ fs) ms messages next none _
          (hand_on-goes_on frame f fs messages got named b n at)
          (hand_on_all-Arrives next (got ++ f ∷ fs)
            (lookup-insert_same (whole_part (got ++ f ∷ fs)) messages) arriving))
  hand_on_all-Arrives messages got at (ends frame f fs named b n) = (
    remove k messages,
    [],
    rw (hand_on-ends frame f fs messages got named b n at) refl,
    lookup-remove_same messages,
  )

  -- A message of two fragments or more, each with a frame of its own, is handed on whole when its last
  -- fragment arrives, and is then forgotten, whatever the handler had in part before and whatever other
  -- messages and fragments of other messages arrive in between.
  pub hand_on_all-reassembles :
      (messages : List (K × Part)) (frame f : BytesFrame) (fs : Message) (ms : List Message)
      (frames : Message)
      → IsOf frame k
      → has_begin_fragment_flag frame ≡ true
      → has_end_fragment_flag frame ≡ false
      → Arrives ms frames
      → HandsOn ((frame ∷ f ∷ fs) ∷ ms) messages ((f ∷ fs) ++ frames)
  unfolding handle_fragment drop_fragmentation_frame has_unfragmented_message_flag
  hand_on_all-reassembles messages frame f fs ms frames named b n arriving =
      let next = insert k (whole_part (f ∷ fs)) messages in
      after_step (frame ∷ f ∷ fs) ms messages next none _
        (hand_on-fragment frame (f ∷ fs) messages k named (rw (b, n) refl) ∙ rw (b) refl)
        (hand_on_all-Arrives next (f ∷ fs) (lookup-insert_same (whole_part (f ∷ fs)) messages)
          arriving)
