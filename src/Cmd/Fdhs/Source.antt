-- ===== src/Cmd/Fdhs/Source.antt =====
-- A server together with the variable `src` of `computeFDHs`.
use fie_importer.Clickhouse.Fdhs.{FdhSource}
use fie_importer.Clickhouse.Server.{Server, IsServer}

module _ {Row : Type 0} (s : Server Row) where
  abbrev pub with_source : Server Row
  with_source = record {
    State = s.State × FdhSource;
    table = λ a n. s.table a.0 n;
    connect = λ a. ((s.connect a.0).0, ((s.connect a.0).1, a.1));
    exists = λ n a. ((s.exists n a.0).0, ((s.exists n a.0).1, a.1));
    create = λ n a. ((s.create n a.0).0, ((s.create n a.0).1, a.1));
    drop = λ n a. ((s.drop n a.0).0, ((s.drop n a.0).1, a.1));
    send = λ n rows a. ((s.send n rows a.0).0, ((s.send n rows a.0).1, a.1));
    count = λ n a. ((s.count n a.0).0, ((s.count n a.0).1, a.1));
  }

  pub with_source-IsServer : IsServer s → IsServer with_source
  with_source-IsServer laws = record {
    connect_same = λ a. laws.connect_same a.0;
    exists_same = λ n a. laws.exists_same n a.0;
    exists_yes = λ n a. laws.exists_yes n a.0;
    create_ok = λ n a. laws.create_ok n a.0;
    create_failed = λ n a. laws.create_failed n a.0;
    create_others = λ n a. laws.create_others n a.0;
    drop_ok = λ n a. laws.drop_ok n a.0;
    drop_others = λ n a. laws.drop_others n a.0;
    send_ok = λ n rows a. laws.send_ok n rows a.0;
    send_others = λ n rows a. laws.send_others n rows a.0;
    send_keeps = λ n rows a. laws.send_keeps n rows a.0;
    count_same = λ n a. laws.count_same n a.0;
    count_right = λ n a. laws.count_right n a.0;
  }
