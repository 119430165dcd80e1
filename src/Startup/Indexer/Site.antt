-- ===== src/Startup/Indexer/Site.antt =====
-- A site in which the indexer runs: what it has asked for so far, and answers that may be any
-- function of the number of questions so far.
use mini_siem_project.Prelude.{
  ℕ, ◌+◌, ◌&&◌, all, retain, Bool, none, some, List, [], ◌∷◌, ◌++◌, if◌then◌else◌,
}
use mini_siem_project.Prelude.Eff.{ok, err}
use mini_siem_project.Types.Log.{Log}
use mini_siem_project.Queue.Send.{FutureRecord, Encoders}
use mini_siem_project.Startup.Indexer.{Indexing}

-- The bulk requests so far, the documents that the index took of them, and the messages in the dead
-- letter topic.
pub record Site : Type 0 where
  pub questions : ℕ
  pub requests : List (List Log)
  pub indexed : List Log
  pub dead : List FutureRecord

abbrev asked : Site → Site
asked w = record w { questions = w.questions + 1 }

-- Of a bulk request the index takes some documents and refuses others; the answer to it may be lost.
pub record Answering : Type 0 where
  pub is_connected : ℕ → Bool
  pub comes_back : ℕ → Bool
  pub takes : ℕ → Log → Bool
  pub answers : ℕ → Bool
  pub stops : ℕ → Bool

abbrev after_bulk : Answering → List Log → Site → Site
after_bulk a logs w = record w {
  questions = w.questions + 1;
  requests = w.requests ++ (logs ∷ []);
  indexed = w.indexed ++ retain (a.takes w.questions) logs;
}

abbrev pub site : Answering → Encoders → Indexing Site (Unit {0})
site a codec = record {
  borrow = λ w. if a.is_connected w.questions then some tt else none;
  changed = λ ms w. (a.comes_back w.questions, asked w);
  -- An error, also where only one document was refused.
  bulk_index = λ client logs w. (
    if a.answers w.questions && all (a.takes w.questions) logs
        then ok tt
        else err "bulk index reported errors",
    after_bulk a logs w,
  );
  set_string = λ key text ttl w. (ok tt, asked w);
  now_text = λ w. "0";
  sleep = λ ms w. asked w;
  try_shutdown = λ w. (a.stops w.questions, asked w);
  producer = record {
    send = λ r w. (ok tt, record w { questions = w.questions + 1; dead = w.dead ++ (r ∷ []) });
    sleep = λ ms w. w;
  };
  codec = codec;
}
