-- ===== src/Agent/Exec.antt =====
-- The failures of a call to the board: `CallError` of session.rs, and a reply's result as one.
use hid_fi.Common.Exec.{Res}
use hid_fi.Core.Proto.{ReplyError, Reply}
use hid_fi.Agent.Env.{NetError}

pub data CallError : Type 0 where
  net : NetError → CallError
  reply : ReplyError → CallError

abbrev pub of_reply : {A : Type 0} → Reply A → Res CallError A
of_reply (Reply.ok a) = Res.ok a
of_reply (Reply.err e) = Res.err (reply e)
