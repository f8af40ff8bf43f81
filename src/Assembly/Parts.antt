-- ===== src/Assembly/Parts.antt =====
-- The texts and the parts of messages in internal/core/turns/run.go.
use eggy.Prelude.{
  ℕ, String, Bool, true, false, ◌||◌, List, [], ◌∷◌, ◌++◌, map, length, take, leb, if◌then◌else◌,
}
use eggy.Text.{codes, trim_space, is_empty, join}
use eggy.Message.{Modality, text, image, file, audio, video, ContentPart, Message, user}
use eggy.Loop.{same_text}

unfoldable pub same_modality : Modality → Modality → Bool
same_modality text text = true
same_modality image image = true
same_modality file file = true
same_modality audio audio = true
same_modality video video = true
same_modality _ _ = false

-- `slices.Contains` of the kinds.
unfoldable pub has_kind : List Modality → Modality → Bool
unfolding same_modality
has_kind [] kind = false
has_kind (k ∷ kinds) kind = same_modality k kind || has_kind kinds kind

-- `partKinds`, with the kinds that it has met.
unfoldable pub kinds_from : List Modality → List ContentPart → List Modality
unfolding has_kind
kinds_from kinds [] = kinds
kinds_from kinds (part ∷ parts) =
    kinds_from (if has_kind kinds part.kind then kinds else kinds ++ part.kind ∷ []) parts

unfoldable pub part_kinds : List ContentPart → List Modality
unfolding kinds_from
part_kinds parts = kinds_from [] parts

-- `partNoun`.
unfoldable pub part_noun : Modality → List ℕ
part_noun image = codes "images"
part_noun file = codes "files"
part_noun text = codes "text"
part_noun audio = codes "audio"
part_noun video = codes "video"

-- `unsupportedPartsMessage`.
unfoldable pub unsupported_parts_message : String → List Modality → List ℕ
unfolding part_noun join
unsupported_parts_message alias kinds =
    codes "The current model ("
    ++ (codes alias
        ++ (codes ") does not accept "
            ++ (join (codes " or ") (map part_noun kinds)
                ++ codes ". Send the content as text, or switch models with /model.")))

-- The texts, trimmed, that are left of steered messages, and their parts.
unfoldable pub steered_texts : List Message → List (List ℕ)
unfolding trim_space
steered_texts [] = []
steered_texts (m ∷ messages) =
    let rest = steered_texts messages in
    let trimmed = trim_space m.content in if is_empty trimmed then rest else trimmed ∷ rest

unfoldable pub steered_parts : List Message → List ContentPart
steered_parts [] = []
steered_parts (m ∷ messages) = m.parts ++ steered_parts messages

-- `mergeSteered`.
unfoldable pub merge_steered : List Message → Message
unfolding join steered_texts steered_parts
merge_steered (m ∷ []) = m
merge_steered messages = record {
  role = user;
  content = join (10 ∷ []) (steered_texts messages);
  parts = steered_parts messages;
  name = "";
  tool_call_id = "";
  tool_calls = [];
}

-- `durableMessageText`: the marker of a part, the markers after a text, and the text itself.
unfoldable pub part_marker : ContentPart → List ℕ
unfolding same_modality
part_marker part =
    if same_modality part.kind file
    then codes "[file attached: " ++ (codes part.filename ++ codes "]")
    else codes "[image attached]"

unfoldable pub with_markers : List ℕ → List ContentPart → List ℕ
unfolding part_marker
with_markers written [] = written
with_markers written (part ∷ parts) =
    with_markers (if is_empty written then part_marker part else written ++ 10 ∷ part_marker part)
      parts

unfoldable pub is_placeholder : List ℕ → Bool
unfolding same_text
is_placeholder written =
    same_text written (codes "Describe this image.") || same_text written (codes "Read this file.")

unfoldable pub durable_message_text : Message → List ℕ
unfolding with_markers is_placeholder trim_space
durable_message_text m =
    let written = trim_space m.content in
    if is_empty m.parts
    then written
    else with_markers (if is_placeholder written then [] else written) m.parts

-- `generatedImages`.
unfoldable pub generated_images : List ContentPart → List ContentPart
unfolding same_modality
generated_images [] = []
generated_images (part ∷ parts) =
    let rest = generated_images parts in if same_modality part.kind image then part ∷ rest else rest

-- `ports.ImageMarker`, or what stands for an image that was not kept.
unfoldable pub image_reference : List ℕ → List ℕ
image_reference id =
    if is_empty id
    then codes "[image generated, not kept]"
    else codes "[image:" ++ (id ++ codes "]")

-- `recordedReply`.
unfoldable pub recorded_reply : Message → List (List ℕ) → Message
unfolding image_reference join trim_space
recorded_reply reply ids = if is_empty ids then record reply { parts = [] } else record reply {
  parts = [];
  content =
      trim_space (trim_space reply.content ++ (10 ∷ 10 ∷ join (10 ∷ []) (map image_reference ids)));
}

-- `truncateThreadTitle`.
unfoldable pub truncate_thread_title : List ℕ → List ℕ
unfolding trim_space
truncate_thread_title content =
    let trimmed = trim_space content in
    if leb (length trimmed) 60 then trimmed else trim_space (take 60 trimmed) ++ 0x2026 ∷ []
