-- ===== src/Message.antt =====
-- internal/ports/messages.go and the tool call of internal/ports/tools.go. Contents and arguments are lists of code
-- points, since the code counts runes; the provider's opaque reasoning fields are left out.
use eggy.Prelude.{ℕ, ◌+◌, ◌%◌, ◌^◌, String, List, Bool, true, false}

pub data Role : Type 0 where
  system user assistant tool : Role

pub data Modality : Type 0 where
  text image file audio video : Modality

pub record ContentPart : Type 0 where
  pub kind : Modality
  pub media_type : String
  -- the bytes; the field is `Data` in the source
  pub bytes : List ℕ
  pub filename : String

pub record ToolCall : Type 0 where
  pub id : String
  pub name : String
  pub arguments : List ℕ

pub record Message : Type 0 where
  pub role : Role
  pub content : List ℕ
  pub parts : List ContentPart
  pub name : String
  pub tool_call_id : String
  pub tool_calls : List ToolCall

abbrev pub is_user : Role → Bool
is_user user = true
is_user _ = false

abbrev pub is_assistant : Role → Bool
is_assistant assistant = true
is_assistant _ = false

pub record ModelUsage : Type 0 where
  pub prompt_tokens : ℕ
  pub completion_tokens : ℕ
  pub total_tokens : ℕ
  pub cached_prompt_tokens : ℕ
  pub cache_write_tokens : ℕ
  pub reasoning_tokens : ℕ

-- `ModelUsage.Add`, of tokens, as 64 bits; the cost in dollars is a float and is left out.
unfoldable pub add_usage : ModelUsage → ModelUsage → ModelUsage
add_usage u v = record {
  prompt_tokens = (u.prompt_tokens + v.prompt_tokens) % 2 ^ 64;
  completion_tokens = (u.completion_tokens + v.completion_tokens) % 2 ^ 64;
  total_tokens = (u.total_tokens + v.total_tokens) % 2 ^ 64;
  cached_prompt_tokens = (u.cached_prompt_tokens + v.cached_prompt_tokens) % 2 ^ 64;
  cache_write_tokens = (u.cache_write_tokens + v.cache_write_tokens) % 2 ^ 64;
  reasoning_tokens = (u.reasoning_tokens + v.reasoning_tokens) % 2 ^ 64;
}

abbrev pub no_usage : ModelUsage
no_usage = record {
  prompt_tokens = 0;
  completion_tokens = 0;
  total_tokens = 0;
  cached_prompt_tokens = 0;
  cache_write_tokens = 0;
  reasoning_tokens = 0;
}
