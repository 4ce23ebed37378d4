-- ===== src/Conns/Status.antt =====
-- conns.go: status and Failed.
use a2kit.Common.{arith, ℕ, Bool, true, false, not, ◌&&◌, ◌||◌, ◌==◌, ltb, if◌then◌else◌, ◌≡◌, refl}
use Prim.Native.String.{String}
use text.Mathlib.Text.{◌==◌ as str_eq}
use a2kit.Conns.Tally.{Conn}

unfoldable pub status : Conn → String
status c =
    if ltb 0 c.syn_ack && ltb 0 c.sent_n && c.received_n == 0
    then "silent"
    else if c.fin
    then "closed"
    else if ltb 0 c.syn && c.syn_ack == 0 && c.refused
    then "refused"
    else if ltb 0 c.syn && c.syn_ack == 0
    then "no answer"
    else if c.rst
    then "reset"
    else if c.syn == 0 && c.syn_ack == 0
    then "already open"
    else if not c.acked
    then "half open"
    else "open"

-- Failed, on a status
unfoldable pub failed : String → Bool
failed s =
    str_eq s "no answer"
    || str_eq s "refused"
    || str_eq s "half open"
    || str_eq s "silent"
    || str_eq s "reset"

-- A connection failed if its server was silent, or if it was not closed in order and began without
-- an answer, or was reset, or was answered and never acknowledged.
abbrev pub broken : Conn → Bool
broken c =
    ltb 0 c.syn_ack && ltb 0 c.sent_n && c.received_n == 0
    || not c.fin && (ltb 0 c.syn && c.syn_ack == 0 || c.rst || ltb 0 c.syn_ack && not c.acked)

zero_test : (n : ℕ) → (n == 0) ≡ not (ltb 0 n)
zero_test n = ground arith

-- status and Failed, on the answers of their tests
failed-tests :
    (silent fin tried answered refused rst acked : Bool)
    → failed (
        if silent
        then "silent"
        else if fin
        then "closed"
        else if tried && not answered && refused
        then "refused"
        else if tried && not answered
        then "no answer"
        else if rst
        then "reset"
        else if not tried && not answered
        then "already open"
        else if not acked
        then "half open"
        else "open")
      ≡ silent || not fin && (tried && not answered || rst || answered && not acked)
unfolding failed
failed-tests true fin tried answered refused rst acked = refl
failed-tests false true tried answered refused rst acked = refl
failed-tests false false true false true rst acked = refl
failed-tests false false true false false rst acked = refl
failed-tests false false true true refused true acked = refl
failed-tests false false true true refused false true = refl
failed-tests false false true true refused false false = refl
failed-tests false false false answered refused true acked = refl
failed-tests false false false false refused false acked = refl
failed-tests false false false true refused false true = refl
failed-tests false false false true refused false false = refl

-- Failed says of every connection whether its server was silent, or it was not closed by a FIN and
-- its SYN got no answer, it was reset, or its client never acknowledged the answer.
pub failed-status : (c : Conn) → failed (status c) ≡ broken c
unfolding status
failed-status c =
    rw (zero_test c.syn, zero_test c.syn_ack)
      (failed-tests (ltb 0 c.syn_ack && ltb 0 c.sent_n && c.received_n == 0) c.fin (ltb 0 c.syn)
        (ltb 0 c.syn_ack) c.refused c.rst c.acked)
