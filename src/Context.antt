-- ===== src/Context.antt =====
-- What a call carries on its `context.Context`: whether it is cancelled (internal/ports/account.go and
-- internal/core/destination/destination.go say what else): who is acting, and the surface to answer on.
use Prim.Native.String.{◌++◌ as append}
use eggy.Prelude.{String, Option, none, some, ◌||◌, str_eq, if◌then◌else◌}
use eggy.Prelude.Result.{Error, Result, ok, err, no_principal, other}
use eggy.Text.{is_blank}

pub record Destination : Type 0 where
  pub kind : String
  pub thread_id : String
  pub channel_id : String

-- The constants `Telegram`, `Web` and `Discord`, and the fixed id of the Telegram thread.
abbrev pub telegram : String
telegram = "telegram"

abbrev pub web : String
web = "web"

abbrev pub discord : String
discord = "discord"

unfoldable pub conversation_id : Destination → String
conversation_id d =
    if str_eq d.kind web
    then d.thread_id
    else if str_eq d.kind discord
    then append "discord:dm:" d.channel_id
    else telegram

unfoldable pub validate : Destination → Result (Unit {0})
validate d =
    if str_eq d.kind "" || str_eq d.kind telegram || str_eq d.kind web
    then ok tt
    else if str_eq d.kind discord
    then if str_eq d.channel_id "" then err (other "discord destination has no channel") else ok tt
    else err (other "unsupported destination kind")

pub record Ctx : Type 0 where
  pub failure : Option Error
  pub principal : Option String
  pub destination : Option Destination

-- `destination.FromContext`.
unfoldable pub destination_of : Ctx → Destination
destination_of ctx = elim ctx.destination [
  | some d ↦ d
  | none ↦ record { kind = telegram; thread_id = ""; channel_id = "" }
]

-- `ports.PrincipalFromContext`, and `accountOf` of the store.
unfoldable pub account_of : Ctx → Result String
unfolding is_blank
account_of ctx = elim ctx.principal [
  | none ↦ err no_principal
  | some account ↦ if is_blank account then err no_principal else ok account
]
