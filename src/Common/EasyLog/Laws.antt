-- ===== src/Common/EasyLog/Laws.antt =====
-- What EasyLog (common/src/easy_log.cpp) prints of the lines that were pushed.
use Prim.Native.String.{String}
use lib_fantuan.Prelude.{
  ℕ, ◌%◌, ◌^◌, ◌≤◌, ◌<◌, ◌≡◌, refl, ap, ap₂, ◌∙◌, Option, none, some, List, [], ◌∷◌, ◌++◌,
  append-nil, arith, length, drop, replicate, length-replicate, length-append, length-drop, ◌==◌,
  if◌then◌else◌,
}
use lib_fantuan.Common.EasyBuffer.{EasyBuffer}
use lib_fantuan.Common.EasyBuffer
use lib_fantuan.Common.EasyBuffer.Laws.{IsValid, contents, length-contents, push-contents}
use lib_fantuan.Common.EasyBuffer.Items.{AllSmall, accepted, pop_all, push-not_full, accepted_step}
use lib_fantuan.Common.EasyLog.{EasyLog, buffer_max_size, level_to_string, push, tick}

-- A log whose buffer is valid, and whose text has room for all that the buffer can hold.
pub record LogIsValid (l : EasyLog) : Type 0 where
  pub buffer : IsValid l.buffer
  pub capacity : l.buffer.max_size ≡ buffer_max_size
  pub not_full : l.buffer.size < buffer_max_size
  pub room : buffer_max_size ≤ length l.text

tick_popped :
    (l : EasyLog) (b : EasyBuffer) (text : List ℕ)
    → l.buffer.size < 2 ^ 16
    → EasyBuffer.pop l.buffer (some (replicate (length l.text) 0)) l.buffer.size
      ≡ some (b, text, l.buffer.size)
    → tick l
      ≡ some (record l { text = text; buffer = b }, if l.buffer.size == 0 then none else some text)
unfolding tick
tick_popped l b text h e =
    let whole : l.buffer.size % 2 ^ 16 ≡ l.buffer.size = omega arith in
    rw (whole, tick) (rw (e, tick) (rw whole refl))

-- A tick hands all that the buffer holds to `_Output`, oldest first and followed by end marks, and
-- leaves the buffer empty; it does not call `_Output` if nothing is held. Condition: a valid log.
pub tick-contents :
    {l : EasyLog}
    → LogIsValid l
    → (l' : EasyLog) × (tick l
        ≡ some (
          l',
          if l.buffer.size == 0
              then none
              else some (contents l.buffer ++ drop l.buffer.size (replicate (length l.text) 0)),
        ))
      × LogIsValid l'
      × (contents l'.buffer ≡ [])
tick-contents {l} v =
    let blank : List ℕ = replicate (length l.text) 0 in
    let room : l.buffer.size ≤ length blank =
      omega (arith, v.room, v.not_full, length-replicate {A = ℕ} (length l.text) 0) in
    let (b, popped, v', held, same_max) = pop_all blank v.buffer room in
    let text : List ℕ = contents l.buffer ++ drop l.buffer.size blank in
    let same_room : length text ≡ length l.text = omega (
      arith,
      length-append (contents l.buffer) (drop l.buffer.size blank),
      length-drop l.buffer.size blank,
      length-contents v.buffer,
      length-replicate {A = ℕ} (length l.text) 0,
      room,
    ) in
    (
      record l { text = text; buffer = b },
      tick_popped l b text (omega (arith, v.not_full)) popped,
      record {
        buffer = v';
        capacity = same_max ∙ v.capacity;
        not_full = omega (arith, ap length held, length-contents v');
        room = omega (arith, same_room, v.room);
      },
      held,
    )

-- A call of Push: what swprintf makes of the level's name, the time and the arguments of this call, and the level.
abbrev pub Line : Type 0
Line = (String → List ℕ) × ℕ

-- The calls of Push, as long as none faults.
unfoldable pub push_lines : EasyLog → List Line → Option EasyLog
push_lines l [] = some l
push_lines l ((line, level) ∷ lines) = elim (push line l level) [
  | none ↦ none
  | some (l', ok) ↦ push_lines l' lines
]

abbrev pub rendered : List Line → List (List ℕ)
rendered [] = []
rendered ((line, level) ∷ lines) = line (level_to_string level) ∷ rendered lines

push_lines-contents :
    (lines : List Line) {l : EasyLog}
    → LogIsValid l
    → AllSmall (rendered lines)
    → (l' : EasyLog) × (push_lines l lines ≡ some l')
      × LogIsValid l'
      × (contents l'.buffer
          ≡ contents l.buffer ++ accepted l.buffer.max_size l.buffer.size (rendered lines))
      × (l'.text ≡ l.text)
unfolding push_lines accepted push
push_lines-contents [] {l} v small = (l, refl, v, rw append-nil, refl)
push_lines-contents ((line, level) ∷ lines) {l} v small =
    let item = line (level_to_string level) in
    let (b, pushed, vb, held, same_max) = push-contents item v.buffer small.0 in
    let l' : EasyLog = record l { buffer = b } in
    let v' : LogIsValid l' = record {
      buffer = vb;
      capacity = same_max ∙ v.capacity;
      not_full = omega (
        arith,
        push-not_full item v.buffer vb (omega (arith, v.capacity, v.not_full)) held,
        v.capacity,
      );
      room = v.room;
    } in
    let (l'', rest, v'', all, text) = push_lines-contents lines {l = l'} v' small.1 in
    (
      l'',
      rw (pushed, push_lines) rest,
      v'',
      all ∙ accepted_step l.buffer b item (rendered lines) v.buffer vb same_max held,
      text,
    )

-- After lines were pushed, whatever their texts and levels, the next tick hands `_Output` what was held before and then
-- all bytes of each line that fitted, in the order in which they were pushed, with end marks behind
-- them, and leaves the buffer empty; it does not call `_Output` where nothing is held.
-- Condition: a valid log, and lines of fewer than 2 ^ 31 bytes.
pub tick-push_lines :
    (lines : List Line) {l : EasyLog}
    → LogIsValid l
    → AllSmall (rendered lines)
    → (l' l'' : EasyLog) × (push_lines l lines ≡ some l')
      × (tick l'
          ≡ some (
            l'',
            if l'.buffer.size == 0
                then none
                else some (
                    (contents l.buffer ++ accepted l.buffer.max_size l.buffer.size (rendered lines))
                    ++ drop l'.buffer.size (replicate (length l.text) 0)),
          ))
      × (contents l''.buffer ≡ [])
tick-push_lines lines {l} v small =
    let (l', pushed, v', held, text) = push_lines-contents lines v small in
    let (l'', ticked, v'', empty) = tick-contents v' in
    (
      l',
      l'',
      pushed,
      ticked
          ∙ ap₂
              (λ c t. some (
                l'',
                if l'.buffer.size == 0
                    then none
                    else some (c ++ drop l'.buffer.size (replicate (length t) 0)),
              ))
              held text,
      empty,
    )
