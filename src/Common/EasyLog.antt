-- ===== src/Common/EasyLog.antt =====
-- EasyLog (common/src/easy_log.h, common/src/easy_log.cpp): lines go through an EasyBuffer to the
-- thread that prints them. Both sides hold the mutex for the whole of a call, so the calls of one
-- log are a sequence.
pub mod Laws
mod Tests
use Prim.Native.String.{String}
use lib_fantuan.Prelude.{
  ℕ, ◌+◌, ◌*◌, ◌%◌, ◌^◌, Bool, true, false, Option, none, some, List, [], ◌∷◌, length, replicate,
  leb, ◌==◌, if◌then◌else◌,
}
use lib_fantuan.Common.EasyBuffer
use lib_fantuan.Common.EasyBuffer.{EasyBuffer}

-- `BUFFER_MAX_SIZE`.
abbrev pub buffer_max_size : ℕ
buffer_max_size = 65535

-- `text` is the memory of `m_strBuffer`, in bytes.
pub record EasyLog : Type 0 where
  pub text : List ℕ
  pub buffer : EasyBuffer
  pub level : ℕ

-- The constructor, where a `wchar_t` has `wchar` bytes.
unfoldable pub new_log : ℕ → EasyLog
new_log wchar = record {
  text = replicate (buffer_max_size * wchar) 0;
  buffer = EasyBuffer.create buffer_max_size;
  level = 0;
}

-- `Init`; the thread that it starts is the caller of `tick`.
unfoldable pub init : EasyLog → ℕ → EasyLog
init l level = record l { level = level }

-- `_Level2String`.
unfoldable pub level_to_string : ℕ → String
level_to_string level =
    if level == 0
    then "DEBUG"
    else (if level == 1
        then "WARNI"
        else (if level == 2 then "ERROR" else (if level == 3 then "STATE" else "")))

-- `Push`: `line` is what swprintf makes of the level's name, in bytes and with no end mark.
unfoldable pub push : (String → List ℕ) → EasyLog → ℕ → Option (EasyLog × Bool)
unfolding level_to_string
push line l level = elim (EasyBuffer.push l.buffer (line (level_to_string level))) [
  | none ↦ none
  | some (b, ok) ↦ some (record l { buffer = b }, ok)
]

-- LOG_DBG, LOG_WAR, LOG_ERR and LOG_STT: the levels below that of the log are left out.
unfoldable pub log_at : (String → List ℕ) → EasyLog → ℕ → Option EasyLog
unfolding push
log_at line l level =
    if leb l.level level
    then elim (push line l level) [ none ↦ none | some (l', ok) ↦ some l' ]
    else some l

-- `_Tick` once the event was signalled. The result holds the memory that `_Output` prints up to the
-- first end mark, if it is called. The sizes are cast to 16 bits.
unfoldable pub tick : EasyLog → Option (EasyLog × Option (List ℕ))
tick l =
    elim (EasyBuffer.pop l.buffer (some (replicate (length l.text) 0)) (l.buffer.size % 2 ^ 16)) [
      | none ↦ none
      | some (b, text, n) ↦
          some (record l { text = text; buffer = b }, if n % 2 ^ 16 == 0 then none else some text)
    ]
