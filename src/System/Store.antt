-- ===== src/System/Store.antt =====
-- The cache under the log keeps its contract.
use politburo.Cache
use politburo.Cache.Contract.{Contract}
use politburo.System.{lifted_store}

abbrev pub lifted-Contract :
    {W : Type 0} (store : Cache.Store W) → Contract store → Contract (lifted_store store)
lifted-Contract store c = record {
  holds = λ t k v. c.holds t k v.state;
  get_hit = λ t k v. c.get_hit t k v.state;
  get_miss = λ t k v. c.get_miss t k v.state;
  get_keeps = λ t u k j v. c.get_keeps t u k j v.state;
  set_ok = λ t k x ttl v. c.set_ok t k x ttl v.state;
  set_either = λ t k x ttl v. c.set_either t k x ttl v.state;
  set_ne = λ t u k j x ttl v. c.set_ne t u k j x ttl v.state;
  delete_ok = λ t k v. c.delete_ok t k v.state;
  delete_either = λ t k v. c.delete_either t k v.state;
  delete_ne = λ t k j v. c.delete_ne t k j v.state;
  get_del_hit = λ t k v. c.get_del_hit t k v.state;
  get_del_gone = λ t u k v. c.get_del_gone t u k v.state;
  get_del_miss = λ t k v. c.get_del_miss t k v.state;
  get_del_either = λ t u k v. c.get_del_either t u k v.state;
  get_del_ne = λ t u k j v. c.get_del_ne t u k j v.state;
}
