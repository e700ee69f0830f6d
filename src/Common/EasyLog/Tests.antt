-- ===== src/Common/EasyLog/Tests.antt =====
-- Runs of EasyLog (common/src/easy_log.cpp), and its theorems at concrete inputs.
use Prim.Native.String.{String}
use lib_fantuan.Prelude.{
  ℕ, ◌*◌, ◌≡◌, refl, none, some, List, [], ◌∷◌, ◌++◌, arith, replicate, length-replicate, drop,
  length, ◌==◌, if◌then◌else◌,
}
use lib_fantuan.Common.EasyBuffer
use lib_fantuan.Common.EasyBuffer.Laws.{contents, create-IsValid}
use lib_fantuan.Common.EasyBuffer.Items.{accepted}
use lib_fantuan.Common.EasyLog.{EasyLog, buffer_max_size, new_log, tick}
use lib_fantuan.Common.EasyLog.Laws.{LogIsValid, Line, rendered, push_lines, tick-push_lines}

-- The time is left out.
abbrev hello : String → List ℕ
hello level = 72 ∷ 105 ∷ 10 ∷ []

abbrev warned : String → List ℕ
warned level = 87 ∷ 10 ∷ []

abbrev lines : List Line
lines = (hello, 0) ∷ (warned, 1) ∷ []

new_log-LogIsValid : LogIsValid (new_log 1)
unfolding new_log EasyBuffer.create
new_log-LogIsValid = record {
  buffer = (create-IsValid buffer_max_size (omega arith)).0;
  capacity = refl;
  not_full = omega arith;
  room = omega (arith, length-replicate {A = ℕ} (buffer_max_size * 1) 0);
}

tick-push_lines_example :
    (l' l'' : EasyLog) × (push_lines (new_log 1) lines ≡ some l')
    × (tick l'
        ≡ some (
          l'',
          if l'.buffer.size == 0
              then none
              else some (
                  (contents (new_log 1).buffer
                    ++ accepted
                        (new_log 1).buffer.max_size
                        (new_log 1).buffer.size
                        (rendered lines))
                  ++ drop l'.buffer.size (replicate (length (new_log 1).text) 0)),
        ))
    × (contents l''.buffer ≡ [])
tick-push_lines_example = tick-push_lines lines new_log-LogIsValid (omega arith, (omega arith, tt))
