-- ===== src/EventLog/Hash.antt =====
-- `fnv1a_64`, `hash64_hex` and `node_kind_name` (src/bt/event_log.cpp).
use Prim.Native.Nat.{bit_xor}
use muesli_bt.Common.{
  ℕ, zero, suc, ◌+◌, ◌-◌, ◌*◌, ◌/◌, ◌%◌, ◌^◌, [], ◌∷◌, ◌++◌, if◌then◌else◌, ltb, Text, codes,
}
use muesli_bt.Ast.{NodeKind}

unfoldable pub fnv1a_step : ℕ → ℕ → ℕ
fnv1a_step hash c = bit_xor hash c * 1099511628211 % 2 ^ 64

unfoldable pub fnv1a_from : ℕ → Text → ℕ
unfolding fnv1a_step
fnv1a_from hash [] = hash
fnv1a_from hash (c ∷ text) = fnv1a_from (fnv1a_step hash c) text

unfoldable pub fnv1a_64 : Text → ℕ
unfolding fnv1a_from
fnv1a_64 text = fnv1a_from 1469598103934665603 text

abbrev pub hex_digit : ℕ → ℕ
hex_digit d = if ltb d 10 then d + b'0' else d - 10 + b'a'

-- `std::hex << std::setw(count) << std::setfill('0')` of a number of at most `count` digits.
unfoldable pub hex_digits : ℕ → ℕ → Text → Text
hex_digits zero n acc = acc
hex_digits (suc count) n acc = hex_digits count (n / 16) (hex_digit (n % 16) ∷ acc)

unfoldable pub hash64_hex : Text → Text
unfolding hex_digits fnv1a_64
hash64_hex text = codes "fnv1a64:" ++ hex_digits 16 (fnv1a_64 text) []

unfoldable pub node_kind_name : NodeKind → Text
node_kind_name NodeKind.seq = codes "seq"
node_kind_name NodeKind.sel = codes "sel"
node_kind_name NodeKind.invert = codes "invert"
node_kind_name NodeKind.repeat = codes "repeat"
node_kind_name NodeKind.retry = codes "retry"
node_kind_name NodeKind.cond = codes "cond"
node_kind_name NodeKind.act = codes "act"
node_kind_name NodeKind.succeed = codes "succeed"
node_kind_name NodeKind.fail = codes "fail"
node_kind_name NodeKind.running = codes "running"
node_kind_name NodeKind.plan_action = codes "plan_action"
node_kind_name NodeKind.vla_request = codes "vla_request"
node_kind_name NodeKind.vla_wait = codes "vla_wait"
node_kind_name NodeKind.vla_cancel = codes "vla_cancel"
node_kind_name NodeKind.mem_seq = codes "mem_seq"
node_kind_name NodeKind.mem_sel = codes "mem_sel"
node_kind_name NodeKind.async_seq = codes "async_seq"
node_kind_name NodeKind.reactive_seq = codes "reactive_seq"
node_kind_name NodeKind.reactive_sel = codes "reactive_sel"
