-- ===== src/StorageRpc/Server.antt =====
-- The handlers of StorageRpc/Server.cpp. Each is what it passes to its callback's `result`.
pub mod Echoed
use thrift_bench.Prelude.{ℕ, List}

pub record EchoResult : Type 0 where
  pub request_id : ℕ
  pub contents : List ℕ

pub record SendResult : Type 0 where
  pub request_id : ℕ

pub async_tm_echo : (request_id : ℕ) (contents : List ℕ) → EchoResult
async_tm_echo request_id contents = record { request_id = request_id; contents = contents }

pub async_tm_send : (request_id : ℕ) (contents : List ℕ) → SendResult
async_tm_send request_id contents = record { request_id = request_id }

pub async_tm_send_no_data : (request_id : ℕ) → SendResult
async_tm_send_no_data request_id = record { request_id = request_id }
